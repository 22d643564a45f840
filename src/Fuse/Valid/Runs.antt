-- ===== src/Fuse/Valid/Runs.antt =====
-- The runs of `tag_file` and `untag_file` that do not fault.
use tag_filesystem.Base.{ℕ, ◌≡◌, Bool, true, some}
use tag_filesystem.Cutil.HashTable.{
  Ptr, Uthash, HashTable, ht_entries, ht_add_unique_entry, ht_remove_entry,
}
use tag_filesystem.Fuse.File.Notify.{
  AllOpen, retagged, file_add_tag-retagged, file_remove_tag-retagged,
}
use tag_filesystem.Fuse.Os.{Os}
use tag_filesystem.Fuse.State.Writes.{write_at, load_tag-run, load_file-run, store_tag-run}
use tag_filesystem.Fuse.State.{Tag, File, Fs, write, ◌>>=◌}
use tag_filesystem.Fuse.Tag.{tag_add_file, tag_remove_file, tag_file, untag_file}

module _ ⦃U : Uthash⦄ ⦃O : Os⦄ where
  -- new tables and new events for a file, a new table for a tag
  abbrev pub linked : Fs → Ptr → Ptr → Tag → File → HashTable → HashTable → Bool → ℕ → O.World → Fs
  linked s p q t f files tags in_use r w = record s {
    tag_at = write s.tag_at p (some (record t { files = files; in_use = in_use }));
    file_at = write s.file_at q (some (record f { tags = tags; revents = r }));
    world = w;
  }

  module _ (s : Fs) (p q : Ptr) {t : Tag} {f : File} (et : s.tag_at p ≡ some t)
      (ef : s.file_at q ≡ some f) (open' : AllOpen s (ht_entries f.descriptors)) where
    pub tag_file-run :
        (r : ℕ) × (w : O.World) × (tag_file p q s
          ≡ some (
            tt,
            linked s p q t f
                (ht_add_unique_entry t.files f.name q).1
                (ht_add_unique_entry f.tags t.value p).1
                true
                r
                w,
          ))
    unfolding tag_file tag_add_file
    tag_file-run =
        let (r, w, e) = file_add_tag-retagged s q p f t ef et open' in
        let s' : Fs = retagged s q f (ht_add_unique_entry f.tags t.value p).1 r w in
        (
          r,
          w,
          rw (e, ◌>>=◌, load_tag-run s' p et, load_file-run s' q (write_at s.file_at q _))
              (store_tag-run s' p _ et),
        )

    pub untag_file-run :
        (r : ℕ) × (w : O.World) × (untag_file p q s
          ≡ some (
            tt,
            linked s p q t f
                (ht_remove_entry t.files f.name).1
                (ht_remove_entry f.tags t.value).1
                t.in_use
                r
                w,
          ))
    unfolding untag_file tag_remove_file
    untag_file-run =
        let (r, w, e) = file_remove_tag-retagged s q p f t ef et open' in
        let s' : Fs = retagged s q f (ht_remove_entry f.tags t.value).1 r w in
        (
          r,
          w,
          rw (e, ◌>>=◌, load_tag-run s' p et, load_file-run s' q (write_at s.file_at q _))
              (store_tag-run s' p _ et),
        )
