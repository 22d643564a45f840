-- ===== src/LowLevel/Linking.antt =====
-- `tag_file` and `untag_file` of fuse_lowlevel/tag.c change the relation between names as those of
-- fuse/tag.c do.
use tag_filesystem.Base.Store.{◌>>=◌, Returns, write}
use tag_filesystem.Base.{◌≡◌, refl, Bool, true, false, some, Bytes}
use tag_filesystem.Cutil.HashTable.{
  Ptr, Uthash, HashTable, ht_get_entry, ht_add_unique_entry, ht_remove_entry,
}
use tag_filesystem.Fuse.Os.{Os as FuseOs}
use tag_filesystem.Fuse.Valid.Linked.{linked-IsValid, has_tag-linked, Relinks}
use tag_filesystem.Fuse.Valid.Linking.{Changes, tag_file-Relinks, untag_file-Relinks}
use tag_filesystem.Fuse.Valid.Runs.{linked}
use tag_filesystem.Fuse.Valid.{IsValid}
use tag_filesystem.LowLevel.Os.{Os}
use tag_filesystem.LowLevel.State.Runs.{load_tag-run, load_file-run, store_tag-run, store_file-run}
use tag_filesystem.LowLevel.State.{Tag, File, Session}
use tag_filesystem.LowLevel.Tag.{tag_file, untag_file}
use tag_filesystem.LowLevel.View.{
  as_tag, as_file, as_fs, map_heap-write, map_heap_at, tag_named, file_named,
}

module _ ⦃U : Uthash⦄ ⦃O : Os⦄ where
  -- new tables for a tag and for a file
  abbrev pub relinked : Session → Ptr → Ptr → Tag → File → HashTable → HashTable → Session
  relinked s p q t f files tags = record s {
    tag_at = write s.tag_at p (some (record t { files = files }));
    file_at = write s.file_at q (some (record f { tags = tags }));
  }

  module _ (s : Session) (p q : Ptr) {t : Tag} {f : File} (et : s.tag_at p ≡ some t)
      (ef : s.file_at q ≡ some f) where
    tag_file-run :
        tag_file p q s
        ≡ some (
          tt,
          relinked s p q t f
              (ht_add_unique_entry t.files f.name q).1
              (ht_add_unique_entry f.tags t.value p).1,
        )
    unfolding tag_file
    tag_file-run =
        rw (load_tag-run s p et, ◌>>=◌, load_file-run s q ef, store_tag-run s p _ et)
          (store_file-run _ q _ ef)

    untag_file-run :
        untag_file p q s
        ≡ some (
          tt,
          relinked s p q t f (ht_remove_entry t.files f.name).1 (ht_remove_entry f.tags t.value).1,
        )
    unfolding untag_file
    untag_file-run =
        rw (load_file-run s q ef, ◌>>=◌, load_tag-run s p et, store_file-run s q _ ef)
          (store_tag-run _ p _ et)

  module _ ⦃F : FuseOs⦄ (w : F.World) where
    as_fs-relinked :
        (s : Session) (p q : Ptr) (t : Tag) (f : File) (files tags : HashTable)
        → as_fs w (relinked s p q t f files tags)
          ≡ linked (as_fs w s) p q (as_tag t) (as_file f) files tags true 0 w
    as_fs-relinked s p q t f files tags =
        rw (map_heap-write as_tag s.tag_at p, map_heap-write as_file s.file_at q) refl

    -- the session with other tables, against the view of the one before
    relinked-Changes :
        (s : Session) (valid : IsValid (as_fs w s)) (p q : Ptr) (t : Tag) (f : File)
        (files tags : HashTable) (b : Bool)
        → Relinks (as_fs w s) p q (as_tag t) (as_file f) files tags b
        → Changes (as_fs w s) f.name t.value b (as_fs w (relinked s p q t f files tags))
    relinked-Changes s valid p q t f files tags b k =
        rw (as_fs-relinked s p q t f files tags) (record {
          valid = linked-IsValid valid k true 0 w;
          same_tags = refl;
          same_files = refl;
          view = has_tag-linked valid k true 0 w;
        })

    -- The relation changes at one pair of names, where it is `b`, and the inodes and the answers stay.
    pub record Retags (s : Session) (n v : Bytes) (b : Bool) (s' : Session) : Type 0 where
      pub changes : Changes (as_fs w s) n v b (as_fs w s')
      pub same_tags : s'.tags ≡ s.tags
      pub same_files : s'.files ≡ s.files
      pub same_itable : s'.itable ≡ s.itable
      pub same_inodes : s'.inode_at ≡ s.inode_at
      pub same_replies : s'.replies ≡ s.replies

    module _ (s : Session) (valid : IsValid (as_fs w s)) (p q : Ptr) {t : Tag} {f : File}
        (et : s.tag_at p ≡ some t) (ef : s.file_at q ≡ some f)
        (ev : ht_get_entry s.tags t.value ≡ some p) where
      retagged :
          (files tags : HashTable) (b : Bool)
          → Relinks (as_fs w s) p q (as_tag t) (as_file f) files tags b
          → Retags s f.name t.value b (relinked s p q t f files tags)
      retagged files tags b k = record {
        changes = relinked-Changes s valid p q t f files tags b k;
        same_tags = refl;
        same_files = refl;
        same_itable = refl;
        same_inodes = refl;
        same_replies = refl;
      }

      -- the session that `tag_file` leaves
      pub tag_file-Retags : Retags s f.name t.value true (
          relinked s p q t f
            (ht_add_unique_entry t.files f.name q).1
            (ht_add_unique_entry f.tags t.value p).1)
      tag_file-Retags = retagged _ _ true (
          tag_file-Relinks valid (map_heap_at as_tag s.tag_at p et)
            (map_heap_at as_file s.file_at q ef) ev)

      tag_file_at : Returns (tag_file p q s) (λ _ s'. Retags s f.name t.value true s')
      tag_file_at = (tt, _, tag_file-run s p q et ef, tag_file-Retags)

      untag_file_at : Returns (untag_file p q s) (λ _ s'. Retags s f.name t.value false s')
      untag_file_at = (
        tt,
        _,
        untag_file-run s p q et ef,
        retagged _ _ false (
            untag_file-Relinks valid (map_heap_at as_tag s.tag_at p et)
              (map_heap_at as_file s.file_at q ef) ev),
      )

    module _ (s : Session) {n v : Bytes} {p q : Ptr} (valid : IsValid (as_fs w s))
        (ev : ht_get_entry s.tags v ≡ some p) (en : ht_get_entry s.files n ≡ some q) where
      pub tag_file_lem : Returns (tag_file p q s) (λ _ s'. Retags s n v true s')
      tag_file_lem =
          let (t, et, named) = tag_named s valid ev in
          let (f, ef, named') = file_named s valid en in
          rw named at (rw named' at (tag_file_at s valid p q et ef (rw named ev)))

      pub untag_file_lem : Returns (untag_file p q s) (λ _ s'. Retags s n v false s')
      untag_file_lem =
          let (t, et, named) = tag_named s valid ev in
          let (f, ef, named') = file_named s valid en in
          rw named at (rw named' at (untag_file_at s valid p q et ef (rw named ev)))
