-- ===== src/LowLevel/Callback/Faults.antt =====
-- A request on which a handler faults.
use tag_filesystem.Base.Store.{◌>>=◌}
use tag_filesystem.Base.{◌≡◌, refl, none, some, Bytes}
use tag_filesystem.Cutil.HashTable.{Ptr, Uthash, ht_get_entry}
use tag_filesystem.LowLevel.Callback.Making.{tag_rmdir}
use tag_filesystem.LowLevel.Inode.{tag_get}
use tag_filesystem.LowLevel.Os.{Os}
use tag_filesystem.LowLevel.State.{Session, invalid_tag, load_tag}
use tag_filesystem.LowLevel.Tag.{tag_remove}

module _ ⦃U : Uthash⦄ ⦃O : Os⦄ where
  tag_remove-none : (p : Ptr) (s : Session) → s.tag_at p ≡ none → tag_remove p s ≡ none
  unfolding tag_remove load_tag
  tag_remove-none p s gone = rw (gone, ◌>>=◌) refl

  tag_get-none :
      (name : Bytes) (s : Session)
      → ht_get_entry s.tags name ≡ none
      → tag_get name s ≡ some (invalid_tag, s)
  unfolding tag_get
  tag_get-none name s missing = rw missing refl

  -- `tag_rmdir` in the root directory, for a name that is no tag, faults: it takes the address
  -- INVALID_TAG for a tag.
  pub tag_rmdir-none :
      (name : Bytes) (s : Session)
      → ht_get_entry s.tags name ≡ none
      → s.tag_at invalid_tag ≡ none
      → tag_rmdir 1 name s ≡ none
  unfolding tag_rmdir
  tag_rmdir-none name s missing gone =
      rw (tag_get-none name s missing, ◌>>=◌, tag_remove-none invalid_tag s gone) refl
