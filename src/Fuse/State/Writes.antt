-- ===== src/Fuse/State/Writes.antt =====
-- Laws of writes to a heap, and the runs of the operations on it that do not fault.
use tag_filesystem.Base.{◌≡◌, none, some, arith}
use tag_filesystem.Cutil.HashTable.{Ptr, Uthash}
use tag_filesystem.Fuse.Os.{Os}
use tag_filesystem.Fuse.State.{
  Tag, File, Fs, load_tag, store_tag, free_tag, load_file, store_file, put_tag, put_file,
}
pub use tag_filesystem.Base.Store.{
  write_self, write-write, write_at, write_elsewhere, write_elim, write_none_elim,
}

module _ ⦃U : Uthash⦄ ⦃O : Os⦄ (s : Fs) where
  pub load_tag-run : (p : Ptr) {t : Tag} → s.tag_at p ≡ some t → load_tag p s ≡ some (t, s)
  unfolding load_tag
  load_tag-run p e = ground arith

  pub store_tag-run :
      (p : Ptr) {t : Tag} (t' : Tag)
      → s.tag_at p ≡ some t
      → store_tag p t' s ≡ some (tt, put_tag p (some t') s)
  unfolding store_tag
  store_tag-run p t' e = rw (e, store_tag)

  pub free_tag-run :
      (p : Ptr) {t : Tag} → s.tag_at p ≡ some t → free_tag p s ≡ some (tt, put_tag p none s)
  unfolding free_tag
  free_tag-run p e = rw (e, free_tag)

  pub load_file-run : (q : Ptr) {f : File} → s.file_at q ≡ some f → load_file q s ≡ some (f, s)
  unfolding load_file
  load_file-run p e = ground arith

  pub store_file-run :
      (q : Ptr) {f : File} (f' : File)
      → s.file_at q ≡ some f
      → store_file q f' s ≡ some (tt, put_file q f' s)
  unfolding store_file
  store_file-run p f' e = rw (e, store_file)
