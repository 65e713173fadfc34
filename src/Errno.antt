-- ===== src/Errno.antt =====
-- Error codes (include/telos/errno.h) and what an `int` function returns: 0 or the negated code.
use telos.Prelude.{◌≡◌, refl, ◌⊎◌, inl, inr}

pub data Errno : Type 0 where
  enosys e2big eacces eaddrinuse eaddrnotavail eafnosupport eagain ealready ebadf ebadmsg : Errno
  ebusy ecanceled echild econnaborted econnrefused econnreset edeadlk edestaddrreq edom : Errno
  edquot eexist efault efbig ehostunreach eidrm eilseq einprogress eintr einval eio : Errno
  eisconn eisdir eloop emfile emlink emsgsize emultihop enametoolong enetdown enetreset : Errno
  enetunreach enfile enobufs enodata enodev enoent enoexec enolck enolink enomem enomsg : Errno
  enoprotoopt enospc enosr enostr enotconn enotdir enotempty enotsock enotsup enotty enxio : Errno
  eopnotsupp eoverflow eperm epipe eproto eprotonosupport eprototype erange erofs espipe : Errno
  esrch estale etime etimedout etxtbsy ewouldblock exdev enotblk eftype : Errno

-- `ok` is 0, `fail e` is `-e`.
pub data Status : Type 0 where
  ok : Status
  fail : Errno → Status

pub Status-cases : (s : Status) → (s ≡ ok) ⊎ ((e : Errno) × (s ≡ fail e))
Status-cases ok = inl refl
Status-cases (fail e) = inr (e, refl)

-- A value, or the code that a function returns instead of writing one.
pub data Result {ℓ} (A : Type ℓ) : Type ℓ where
  got : A → Result A
  failed : Errno → Result A
