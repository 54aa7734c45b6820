-- ===== src/Storage/Exclusion.antt =====
-- src/storage/mod.rs: two retained requests never touch the same byte unless both read.
use hrx_rs.Common.{
  ℕ, zero, suc, ◌+◌, ◌≡◌, ◌≢◌, refl, sym, ap, subst, ◌∙◌, ◌⊎◌, inl, inr, Bool, true, false, ◌&&◌,
  Option, none, some, List, [], ◌∷◌, get_elem?, ◌==◌, arith, Bool-cases,
}
use hrx_rs.Storage.{RegisteredFile, Extent}
use hrx_rs.Storage.Session.{
  Request, is_retained, upgrade, is_file, is_shareable, is_overlapping, shares, free, react,
  encounter, Meeting, look, update,
}
use hrx_rs.Storage.Steps.{at}
use hrx_rs.Storage.Cells.{at-update}

abbrev pub identity_at : List RegisteredFile → ℕ → Option (ℕ × ℕ)
identity_at files i = elim (get_elem? files i) [ none ↦ none | some f ↦ some f.identity ]

abbrev pub agree : Option (ℕ × ℕ) → Option (ℕ × ℕ) → Bool
agree none b = false
agree (some a) none = false
agree (some a) (some b) = (a.0 == b.0) && (a.1 == b.1)

-- Both extents lie in files of one identity.
abbrev pub same_file : List RegisteredFile → Extent → Extent → Bool
same_file files a b = agree (identity_at files a.file) (identity_at files b.file)

abbrev pub IsApart : List RegisteredFile → List (Option Request) → Type 0
IsApart files cells =
    (i j : ℕ) (r q : Request)
    → i ≢ j
    → at cells i ≡ some r
    → at cells j ≡ some q
    → is_retained r ≡ true
    → is_retained q ≡ true
    → same_file files r.extent q.extent ≡ true
    → is_overlapping r.extent q.extent ≡ false

-- Every retained request was there before, with its extent.
abbrev pub Descends : List (Option Request) → List (Option Request) → Type 0
Descends before after =
    (i : ℕ) (r : Request)
    → at after i ≡ some r
    → is_retained r ≡ true
    → (q : Request) × (at before i ≡ some q) × (is_retained q ≡ true) × (r.extent ≡ q.extent)

pub Descends-IsApart :
    (files : List RegisteredFile) (before after : List (Option Request))
    → Descends before after
    → IsApart files before
    → IsApart files after
Descends-IsApart files before after descends apart i j r q distinct hr hq kr kq same =
    let (s, hs, ks, es) = descends i r hr kr in
    let (t, ht, kt, et) = descends j q hq kq in
    let clear = apart i j s t distinct hs ht ks kt (
      ap (λ e. same_file files e t.extent) (sym es)
      ∙ ap (λ e. same_file files r.extent e) (sym et)
      ∙ same) in
    ap (λ e. is_overlapping r.extent e) et ∙ ap (λ e. is_overlapping e t.extent) es ∙ clear

pub Descends-trans : (a b c : List (Option Request)) → Descends a b → Descends b c → Descends a c
Descends-trans a b c f g i r h k =
    let (q, hq, kq, eq) = g i r h k in let (p, hp, kp, ep) = f i q hq kq in (p, hp, kp, eq ∙ ep)

-- A change that keeps the extent, of a request that is retained if the changed one is.
pub update-Descends :
    (change : Request → Request) (i : ℕ) (cells : List (Option Request))
    → ((r : Request) → (change r).extent ≡ r.extent)
    → ((r : Request) → at cells i ≡ some r → is_retained (change r) ≡ true → is_retained r ≡ true)
    → Descends cells (update change i cells)
update-Descends change i cells extent retained j r h k =
    let (q, before, how) = at-update change i cells j r h in
    elim how [
      | inl (e, n) ↦ (q, before, ap is_retained (sym e) ∙ k, ap (λ x. x.extent) e)
      | inr (e, m) ↦ (
        q,
        before,
        retained q (ap (at cells) m ∙ before) (ap is_retained (sym e) ∙ k),
        ap (λ x. x.extent) e ∙ extent q,
      )
    ]

react-shares :
    (file shareable overlapping : Bool) (k i : ℕ) (later : Meeting)
    → react file shareable overlapping k later ≡ shares i
    → (later ≡ shares i) ⊎ (i ≡ k)
react-shares false s o k i later h = inl h
react-shares true true o k i later h = inr (ground arith)
react-shares true false true k i later h = absurd (ground arith)
react-shares true false false k i later h = inl h

react-free :
    (file shareable overlapping : Bool) (k : ℕ) (later : Meeting)
    → react file shareable overlapping k later ≡ free
    → (later ≡ free) × (file ≡ true → overlapping ≡ false)
react-free false s o k later h = (h, λ e. absurd (ground arith))
react-free true true o k later h = absurd (ground arith)
react-free true false true k later h = absurd (ground arith)
react-free true false false k later h = (h, λ e. refl)

encounter-shares :
    (files : List RegisteredFile) (file : RegisteredFile) (extent : Extent) (k i : ℕ)
    (cell : Option Request) (later : Meeting)
    → encounter files file extent k (upgrade cell) later ≡ shares i
    → (later ≡ shares i) ⊎ ((i ≡ k) × (r : Request) × (cell ≡ some r) × (is_retained r ≡ true))
encounter-shares files file extent k i none later h = inl h
encounter-shares files file extent k i (some r) later h = elim (Bool-cases (is_retained r)) [
  | inr dead ↦ inl (rw dead at h)
  | inl kept ↦
      let met : encounter files file extent k (some r) later ≡ shares i = rw kept at h in
      elim (react-shares (is_file files file r.extent.file) (is_shareable extent r)
        (is_overlapping extent r.extent) k i later met) [
          | inl rest ↦ inl rest
          | inr e ↦ inr (e, r, refl, kept)
        ]
]

encounter-free :
    (files : List RegisteredFile) (file : RegisteredFile) (extent : Extent) (k : ℕ)
    (cell : Option Request) (later : Meeting)
    → encounter files file extent k (upgrade cell) later ≡ free
    → (later ≡ free)
      × ((r : Request)
          → cell ≡ some r
          → is_retained r ≡ true
          → is_file files file r.extent.file ≡ true
          → is_overlapping extent r.extent ≡ false)
encounter-free files file extent k none later h = (h, λ r e. absurd (ground arith))
encounter-free files file extent k (some q) later h = elim (Bool-cases (is_retained q)) [
  | inr dead ↦ (rw dead at h, λ r e kept. absurd (ground arith))
  | inl kept ↦
      let met : encounter files file extent k (some q) later ≡ free = rw kept at h in
      let (rest, clear) =
        react-free (is_file files file q.extent.file) (is_shareable extent q)
          (is_overlapping extent q.extent) k later met in
      (
        rest,
        λ r e live.
            let same : q ≡ r = ground arith in
            subst
              (λ x.
                is_file files file x.extent.file ≡ true → is_overlapping extent x.extent ≡ false)
              same clear,
      )
]

-- The loop finds the request to share among the retained ones.
pub look-shares :
    (files : List RegisteredFile) (file : RegisteredFile) (extent : Extent) (k : ℕ)
    (cells : List (Option Request)) (i : ℕ)
    → look files file extent k cells ≡ shares i
    → (j : ℕ) × (r : Request) × (i ≡ k + j) × (at cells j ≡ some r) × (is_retained r ≡ true)
unfolding look
look-shares files file extent k [] i h = absurd (ground arith)
look-shares files file extent k (cell ∷ cells) i h =
    elim (encounter-shares files file extent k i cell (look files file extent (k + 1) cells) h) [
      | inl rest ↦
          let (j, r, e, found, kept) = look-shares files file extent (k + 1) cells i rest in
          (suc j, r, omega arith, found, kept)
      | inr (e, r, found, kept) ↦ (0, r, omega arith, found, kept)
    ]

-- No retained request of the file overlaps.
pub look-free :
    (files : List RegisteredFile) (file : RegisteredFile) (extent : Extent) (k : ℕ)
    (cells : List (Option Request)) (i : ℕ) (r : Request)
    → look files file extent k cells ≡ free
    → at cells i ≡ some r
    → is_retained r ≡ true
    → is_file files file r.extent.file ≡ true
    → is_overlapping extent r.extent ≡ false
unfolding look
look-free files file extent k [] i r h e kept same = absurd (ground arith)
look-free files file extent k (cell ∷ cells) zero r h e kept same =
    (encounter-free files file extent k cell (look files file extent (k + 1) cells) h).1 r e kept
      same
look-free files file extent k (cell ∷ cells) (suc i) r h e kept same =
    look-free files file extent (k + 1) cells i r
      (encounter-free files file extent k cell (look files file extent (k + 1) cells) h).0 e kept
      same
