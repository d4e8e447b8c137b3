-- ===== src/Error.antt =====
-- src/lib/error.rs: the error types of the client and the daemon, and the errno that a FUSE reply
-- carries. An error of the library rs1541 enters by its display text. A duration is a number of
-- milliseconds. How Rust prints a duration is a parameter.
use rs1541fs.Prelude.{ℕ, String, ◌<+>◌, ◌≡◌, refl}

abbrev pub Duration : Type 0
Duration = ℕ

pub data Fs1541Error : Type 0 where
  operation configuration validation aged_out internal : String → Fs1541Error
  timeout : String → Duration → Fs1541Error
  cancelled read_only write_only read_or_write_only file_access : String → Fs1541Error
  is_dir is_not_dir no_entry : String → Fs1541Error

pub data Error : Type 0 where
  rs1541 io serde : String → String → Error
  fs1541 : String → Fs1541Error → Error

-- The errno values of `libc` that the daemon sends.
pub data Errno : Type 0 where
  eio einval etimedout ecanceled erofs eacces eisdir enotdir enoent enodata erange : Errno

-- A Rust `Result`, and the panics of `assert!`, `unwrap`, `unreachable!` and indexing.
pub data Result {ℓ} (A : Type ℓ) : Type ℓ where
  ok : A → Result A
  err : Error → Result A
  panic : Result A

infixl 5 ◌>>=◌ ◌>>◌
abbrev pub ◌>>=◌ {ℓ κ} : {A : Type ℓ} {B : Type κ} → Result A → (A → Result B) → Result B
ok a >>= f = f a
err e >>= f = err e
panic >>= f = panic

abbrev pub ◌>>◌ {ℓ} : {B : Type ℓ} → Result (Unit {0}) → Result B → Result B
m >> k = m >>= λ _. k

-- `Fs1541Error::to_fuse_reply_error`
unfoldable pub fs1541_reply_error : Fs1541Error → Errno
fs1541_reply_error (operation _) = eio
fs1541_reply_error (configuration _) = einval
fs1541_reply_error (validation _) = einval
fs1541_reply_error (aged_out _) = etimedout
fs1541_reply_error (internal _) = eio
fs1541_reply_error (timeout _ _) = etimedout
fs1541_reply_error (cancelled _) = ecanceled
fs1541_reply_error (read_only _) = erofs
fs1541_reply_error (write_only _) = eacces
fs1541_reply_error (read_or_write_only _) = einval
fs1541_reply_error (file_access _) = eacces
fs1541_reply_error (is_dir _) = eisdir
fs1541_reply_error (is_not_dir _) = enotdir
fs1541_reply_error (no_entry _) = enoent

-- `Error::to_fuse_reply_error`
unfoldable pub to_fuse_reply_error : Error → Errno
unfolding fs1541_reply_error
to_fuse_reply_error (fs1541 _ e) = fs1541_reply_error e
to_fuse_reply_error _ = eio

-- How Rust prints a duration with `{:?}`.
module _ (debug_duration : Duration → String) where
  -- the `#[error(...)]` texts of `Fs1541Error`
  unfoldable pub fs1541_display : Fs1541Error → String
  fs1541_display (operation s) = "Operation error: " <+> s
  fs1541_display (configuration s) = "Configuration error: " <+> s
  fs1541_display (validation s) = "Validation error: " <+> s
  fs1541_display (aged_out s) = "Aged out error: " <+> s
  fs1541_display (internal s) = "Internal error: " <+> s
  fs1541_display (timeout s d) =
      "Timeout error: " <+> s <+> " Timer duration: " <+> debug_duration d
  fs1541_display (cancelled s) = "Operation cancelled: " <+> s
  fs1541_display (read_only s) = "File " <+> s <+> " is read only"
  fs1541_display (write_only s) = "Write " <+> s <+> " is read only"
  fs1541_display (read_or_write_only s) = "Read _or_ write only supported " <+> s
  fs1541_display (file_access s) = "General file access error: " <+> s
  fs1541_display (is_dir s) = "Is a directory: " <+> s
  fs1541_display (is_not_dir s) = "File is not a directory: " <+> s
  fs1541_display (no_entry s) = "No (filesystem) entry: " <+> s

  -- the `#[error(...)]` texts of `Error`
  unfoldable pub display : Error → String
  unfolding fs1541_display
  display (rs1541 message error) = message <+> " | rs1541 error: " <+> error
  display (io message error) = message <+> " | IO error: " <+> error
  display (serde message error) = message <+> " | Serde error: " <+> error
  display (fs1541 message error) = message <+> " | fs1541 error: " <+> fs1541_display error

pub bind-ok {ℓ κ} :
    {A : Type ℓ} {B : Type κ} (r : Result A) (f : A → Result B) (b : B)
    → (r >>= f) ≡ ok b
    → (a : A) × (r ≡ ok a) × (f a ≡ ok b)
bind-ok (ok a) f b e = (a, refl, e)
bind-ok (err x) f b e = absurd (cc e)
bind-ok panic f b e = absurd (cc e)

pub ok-injective {ℓ} : {A : Type ℓ} (a b : A) → ok a ≡ ok b → a ≡ b
ok-injective a b e = cc e
