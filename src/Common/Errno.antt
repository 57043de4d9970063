-- ===== src/Common/Errno.antt =====
-- The error codes of include/aevos/types.h that the functions of type `int` return.

-- `0`, and the negative codes.
pub data Status : Type 0 where
  ok einval enoent enomem eperm enospc : Status
