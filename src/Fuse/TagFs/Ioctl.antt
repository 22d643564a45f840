-- ===== src/Fuse/TagFs/Ioctl.antt =====
-- The write behind the end of the buffer of `ioctl_read_tags`.
use tag_filesystem.Base.{
  ℕ, zero, suc, ◌-◌, ◌+◌, ◌≡◌, ◌≤◌, refl, none, some, Option-cases, inl, inr, List, [], ◌∷◌, Bytes,
  arith, length, take, replicate, length-append, length-replicate,
}
use tag_filesystem.Cutil.HashTable.{Ptr, Uthash, ht_get_entry}
use tag_filesystem.Fuse.File.{file_get, file_get_tags_string}
use tag_filesystem.Fuse.Os.{Os}
use tag_filesystem.Fuse.State.{FileDescriptor, Fs, ◌>>=◌, load_fd}
use tag_filesystem.Fuse.TagFs.Attr.{strncpy}
use tag_filesystem.Fuse.TagFs.Content.{TagIoctl, put_byte, fill_ioctl, ioctl_read_tags, bufsize}

length-take : {A : Type 0} (n : ℕ) (xs : List A) → length (take n xs) + (n - length xs) ≡ n
length-take zero xs = omega arith
length-take (suc n) [] = omega arith
length-take (suc n) (x ∷ xs) = omega (arith, length-take n xs)

-- `strncpy` writes `size` bytes, whatever the string is.
pub length-strncpy : (str : Bytes) (size : ℕ) → length (strncpy str size) ≡ size
unfolding strncpy
length-strncpy str size = omega (
  arith,
  length-append (take size str) (replicate (size - length str) 0),
  length-take size str,
  length-replicate {A = ℕ} (size - length str) 0,
)

pub put_byte-none : (buf : Bytes) (i c : ℕ) → length buf ≤ i → put_byte buf i c ≡ none
unfolding put_byte
put_byte-none [] i c h = refl
put_byte-none (x ∷ buf) zero c h = absurd (omega arith)
put_byte-none (x ∷ buf) (suc i) c h = rw (put_byte-none buf i c (omega arith)) refl

module _ ⦃U : Uthash⦄ ⦃O : Os⦄ where
  pub fill_ioctl-none :
      (str : Bytes) (len : ℕ) (arg : TagIoctl) (s : Fs) → fill_ioctl str len arg s ≡ none
  unfolding fill_ioctl put_byte strncpy
  fill_ioctl-none str len arg s =
      rw (put_byte-none (strncpy str bufsize) bufsize 0 (omega (arith, length-strncpy str bufsize)))
        refl

  -- `ioctl_read_tags`, on an open descriptor whose path names a file of the table, never ends without
  -- a fault, whatever the tags of the file are: it writes behind the end of its buffer.
  pub ioctl_read_tags-none :
      (s : Fs) (fh : Ptr) (fd : FileDescriptor) (q : Ptr) (arg : TagIoctl)
      → s.fd_at fh ≡ some fd
      → ht_get_entry s.files fd.path.filename ≡ some q
      → ioctl_read_tags fh arg s ≡ none
  unfolding ioctl_read_tags load_fd file_get
  ioctl_read_tags-none s fh fd q arg here known = elim (Option-cases (file_get_tags_string q s)) [
    | inl e ↦ rw (here, ◌>>=◌, known, e) refl
    | inr (((str, len), s'), e) ↦ rw (here, ◌>>=◌, known, e) (fill_ioctl-none str len arg s')
  ]
