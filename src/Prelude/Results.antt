-- ===== src/Prelude/Results.antt =====
-- What a function of the program reports: success, or -1 with `errno`.
pub data Errno : Type 0 where
  einval eoverflow enobufs enomem : Errno

pub data Status : Type 0 where
  done : Status
  failed : Errno → Status
