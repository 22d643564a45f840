-- ===== src/Fuse/TagFs/Renaming.antt =====
-- `rename_linked`, the branch of `tag_rename` between two tags, on a valid store.
use tag_filesystem.Base.{
  ◌≡◌, refl, false, not, ◌&&◌, ◌||◌, List, [], ◌∷◌, Bytes, pos, arith, str_eq,
}
use tag_filesystem.Cutil.HashTable.{Entries, Uthash, ht_entries}
use tag_filesystem.Fuse.Os.{Os, Stat, done}
use tag_filesystem.Fuse.State.{UserPath, Fs}
use tag_filesystem.Fuse.TagFs.Tagging.{path_link, path_unlink, rename_linked}
use tag_filesystem.Fuse.Valid.LinkAll.{is_one_of, Links, path_link_lem}
use tag_filesystem.Fuse.Valid.Matching.{has_all}
use tag_filesystem.Base.Store.{Returns, Returns-bind}
use tag_filesystem.Fuse.Valid.Selection.{Selects}
use tag_filesystem.Fuse.Valid.Unlinking.{Distinct, path_unlink_lem}
use tag_filesystem.Fuse.Valid.{IsValid, has_tag}

module _ ⦃U : Uthash⦄ ⦃O : Os⦄ where
  Selects-Links :
      {s s' : Fs} {n : Bytes} {froms tos : List Bytes} (ns : List Bytes) (es : Entries)
      → Links s n froms tos s'
      → Selects s ns es
      → Selects s' ns es
  Selects-Links [] [] k sel = sel
  Selects-Links (m ∷ ns) ((j, p) ∷ es) k (named, here, sel) =
      (named, k.tags m p here, Selects-Links ns es k sel)
  Selects-Links [] (_ ∷ _) k sel = absurd sel
  Selects-Links (_ ∷ _) [] k sel = absurd sel

  -- `rename_linked`, on a valid store, paths that select the different tags `froms` and the tags `tos`, and
  -- a real file at the first path that is no directory, does not fault, keeps the store valid and returns
  -- 0. Afterwards the file has none of the tags `froms`, also those that are in `tos`; it has the other
  -- tags `tos` if it had all the tags `froms`; and every other pair of names is as before.
  pub rename_linked_lem :
      {s : Fs} (valid : IsValid s) (ffrom fto : UserPath) (st : Stat) (froms tos : List Bytes)
      → Distinct froms
      → Selects s froms (ht_entries ffrom.selected_tags)
      → Selects s tos (ht_entries fto.selected_tags)
      → O.stat s.world ffrom.realpath ≡ done st
      → st.is_dir ≡ false
      → Returns (rename_linked ffrom fto s) (λ res s'.
        IsValid s'
        × (res ≡ pos 0)
        × ((n v : Bytes)
            → has_tag s' n v ≡ (
                not (str_eq ffrom.filename n && is_one_of v froms)
                && ((has_all s ffrom.filename froms && (str_eq ffrom.filename n && is_one_of v tos))
                    || has_tag s n v))))
  unfolding rename_linked
  rename_linked_lem {s} valid ffrom fto st froms tos distinct from_tags to_tags here file =
      Returns-bind (path_link ffrom fto) _ s
        (path_link_lem valid ffrom fto st froms tos from_tags to_tags here file)
        λ res s₁ (k, _).
          Returns-bind (path_unlink ffrom) _ s₁
            (path_unlink_lem k.valid ffrom froms distinct
              (Selects-Links froms (ht_entries ffrom.selected_tags) k from_tags))
            λ res' s₂ (u, _).
              (pos 0, s₂, refl, (u.valid, refl, λ n v. ground (arith, u.view n v, k.view n v)))
