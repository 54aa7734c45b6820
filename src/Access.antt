-- ===== src/Access.antt =====
-- src/execution/contract.rs: how a device uses the bytes of a buffer.
use hrx_rs.Common.{Bool, true, false}

pub data Access : Type 0 where
  read write read_write : Access

-- `Access::writes`, which is also the test `access != Access::Read`.
unfoldable pub writes : Access → Bool
writes read = false
writes write = true
writes read_write = true
