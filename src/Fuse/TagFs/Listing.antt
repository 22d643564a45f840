-- ===== src/Fuse/TagFs/Listing.antt =====
-- `readdir_list_files` on a valid store, against the relation between names.
use tag_filesystem.Base.{
  ◌≡◌, refl, false, not, ◌&&◌, List, [], ◌∷◌, Bytes, arith, if◌then◌else◌, Bool-cases, inl, inr,
}
use tag_filesystem.Cutil.HashTable.{Uthash, ht_entries}
use tag_filesystem.Fuse.Os.{Os, Stat, Dirent, done}
use tag_filesystem.Fuse.State.{UserPath, Fs}
use tag_filesystem.Fuse.TagFs.Attr.{getattr_intra}
use tag_filesystem.Fuse.TagFs.Dir.{list_files, readdir_list_files}
use tag_filesystem.Fuse.UserPath.{path_set}
use tag_filesystem.Fuse.Util.{append_dir}
use tag_filesystem.Fuse.Valid.Matching.{has_all, has_all-Keeps, getattr_intra_lem}
use tag_filesystem.Fuse.Valid.Names.{Keeps, Keeps-refl, Keeps-trans}
use tag_filesystem.Base.Store.{Returns, Returns-bind, Returns-mono}
use tag_filesystem.Fuse.Valid.Selection.{Selects, Selects-Keeps}
use tag_filesystem.Fuse.Valid.{IsValid}

module _ ⦃U : Uthash⦄ ⦃O : Os⦄ where
  -- `stat` finds a file, and no directory, at every entry that is no directory
  abbrev pub AreFiles : O.World → List Dirent → Type 0
  AreFiles w [] = Unit
  AreFiles w (d ∷ ds) =
      (d.is_dir ≡ false
        → (st : Stat) × (O.stat w (append_dir O.realdirpath d.d_name) ≡ done st)
          × (st.is_dir ≡ false))
      × AreFiles w ds

  -- the names of the entries that are no directories and have all these tags
  abbrev pub with_all : Fs → List Bytes → List Dirent → List Bytes
  with_all s vs [] = []
  with_all s vs (d ∷ ds) =
      if not d.is_dir && has_all s d.d_name vs
      then d.d_name ∷ with_all s vs ds
      else with_all s vs ds

  with_all-Keeps :
      {s s' : Fs} (vs : List Bytes) (ds : List Dirent)
      → Keeps s s'
      → with_all s' vs ds ≡ with_all s vs ds
  with_all-Keeps vs [] k = refl
  with_all-Keeps vs (d ∷ ds) k = rw (has_all-Keeps d.d_name vs k, with_all-Keeps vs ds k)

  list_files-with_all :
      (ds : List Dirent) (s : Fs) (dir : UserPath) (vs : List Bytes)
      → IsValid s
      → Selects s vs (ht_entries dir.selected_tags)
      → AreFiles s.world ds
      → Returns (list_files dir ds s) (λ names s'. Keeps s s' × (names ≡ with_all s vs ds))
  unfolding list_files path_set
  list_files-with_all [] s dir vs valid sel files = ([], s, refl, (Keeps-refl valid, refl))
  list_files-with_all (d ∷ ds) s dir vs valid sel (here, files) = elim (Bool-cases d.is_dir) [
    | inl is_dir ↦
        rw is_dir
          (Returns-mono (list_files-with_all ds s dir vs valid sel files) λ names s' (k, e). (k, e))
    | inr file ↦
        let (st, found, regular) = here file in
        let path = path_set dir.virtpath d.d_name dir.selected_tags in
        rw file (
          Returns-bind (getattr_intra path) _ s
            (getattr_intra_lem valid path st vs sel found regular)
            λ (res, attrs) s₁ (k, _, er, _).
              Returns-bind (list_files dir ds) _ s₁
                (list_files-with_all ds s₁ dir vs k.valid
                  (Selects-Keeps vs (ht_entries dir.selected_tags) k sel) (rw k.same_world files))
                λ names s₂ (l, en).
                  (_, s₂, refl, (Keeps-trans k l, ground (arith, er, en, with_all-Keeps vs ds k))))
  ]

  -- `readdir_list_files`, on a valid store, a directory whose selected tags have the names `vs`, and a root
  -- directory whose entries are files where they are no directories, does not fault and keeps the store
  -- valid and the relation between names. It lists, in the order of the root directory, the entries that
  -- are no directories and have all the tags `vs`.
  pub readdir_list_files_lem :
      {s : Fs} (valid : IsValid s) (dirpath : UserPath) (vs : List Bytes)
      → Selects s vs (ht_entries dirpath.selected_tags)
      → AreFiles s.world (O.readdir s.world)
      → Returns
          (readdir_list_files dirpath s)
          (λ names s'. Keeps s s' × (names ≡ with_all s vs (O.readdir s.world)))
  unfolding readdir_list_files
  readdir_list_files_lem {s} valid dirpath vs sel files =
      list_files-with_all (O.readdir s.world) s dirpath vs valid sel files
