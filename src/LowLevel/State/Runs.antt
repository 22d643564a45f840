-- ===== src/LowLevel/State/Runs.antt =====
-- The reads and writes of the store that do not fault, and the store after an answer.
use tag_filesystem.Base.{◌≡◌, refl, some, [], ◌∷◌, ◌++◌, arith}
use tag_filesystem.Cutil.HashTable.{Ptr, Uthash}
use tag_filesystem.LowLevel.Os.{Os}
use tag_filesystem.LowLevel.State.{
  Tag, File, Inode, Reply, Session, load_tag, store_tag, load_file, store_file, load_inode,
  store_inode, put_tag, put_file, put_inode, reply,
}

module _ ⦃U : Uthash⦄ ⦃O : Os⦄ where
  -- the session after one more answer
  abbrev pub answered : Session → Reply → Session
  answered s r = record s { replies = s.replies ++ r ∷ [] }

  pub reply-run : (s : Session) (r : Reply) → reply r s ≡ some (tt, answered s r)
  unfolding reply
  reply-run s r = refl

  module _ (s : Session) (p : Ptr) where
    pub load_tag-run : {t : Tag} → s.tag_at p ≡ some t → load_tag p s ≡ some (t, s)
    unfolding load_tag
    load_tag-run e = ground arith

    pub load_file-run : {f : File} → s.file_at p ≡ some f → load_file p s ≡ some (f, s)
    unfolding load_file
    load_file-run e = ground arith

    pub load_inode-run : {i : Inode} → s.inode_at p ≡ some i → load_inode p s ≡ some (i, s)
    unfolding load_inode
    load_inode-run e = ground arith

    pub store_tag-run :
        {t : Tag} (t' : Tag)
        → s.tag_at p ≡ some t
        → store_tag p t' s ≡ some (tt, put_tag p (some t') s)
    unfolding store_tag
    store_tag-run t' e = ground arith

    pub store_file-run :
        {f : File} (f' : File)
        → s.file_at p ≡ some f
        → store_file p f' s ≡ some (tt, put_file p f' s)
    unfolding store_file
    store_file-run f' e = ground arith

    pub store_inode-run :
        {i : Inode} (i' : Inode)
        → s.inode_at p ≡ some i
        → store_inode p i' s ≡ some (tt, put_inode p (some i') s)
    unfolding store_inode
    store_inode-run i' e = ground arith
