-- ===== src/Base/Errno.antt =====
-- The error numbers that the stack returns or stores in `errno`.
use Prim.Native.Nat.{ℕ}

pub data Errno : Type 0 where
  enomem enoent einval ebadmsg enomsg enotsock eprototype : Errno
  eprotonosupport ehostunreach enobufs emsgsize ealready eaddrinuse enodev : Errno

-- An `int` result: a value that is not negative, or an error. The error is a negated number in the
-- source, or -1 with the number in `errno`.
pub data Ret : Type 0 where
  done : ℕ → Ret
  fail : Errno → Ret

-- The numbers of <errno.h> on Linux.
abbrev pub errno_number : Errno → ℕ
errno_number enoent = 2
errno_number enomem = 12
errno_number enodev = 19
errno_number einval = 22
errno_number enomsg = 42
errno_number ebadmsg = 74
errno_number enotsock = 88
errno_number emsgsize = 90
errno_number eprototype = 91
errno_number eprotonosupport = 93
errno_number eaddrinuse = 98
errno_number enobufs = 105
errno_number ehostunreach = 113
errno_number ealready = 114
