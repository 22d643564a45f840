-- ===== src/LowLevel/Callback/Renaming.antt =====
-- `tag_rename`: what it does to the relation between files and tags, and what it answers, on a session
-- whose view is valid.
use tag_filesystem.LowLevel.Callback.Relations.{tag_get-run, inode_get-run, file_get-run, Answers}
use tag_filesystem.Base.Store.{◌>>=◌, Returns, Returns-bind}
use tag_filesystem.Base.{
  ℕ, ◌≡◌, ◌∙◌, refl, ap, Bool, true, false, ◌&&◌, ◌||◌, some, [], ◌∷◌, ◌++◌, Bytes, ◌==◌, ltb,
  str_eq, if◌then◌else◌, length,
}
use tag_filesystem.Cutil.HashTable.{Ptr, Uthash, ht_get_entry}
use tag_filesystem.Fuse.Os.{Os as FuseOs}
use tag_filesystem.Fuse.Valid.{IsValid, has_tag}
use tag_filesystem.LowLevel.Callback.Linking.{
  tag_rename, rename_found, rename_file, untag_all, tag_all,
}
use tag_filesystem.LowLevel.Inode.{ino_key}
use tag_filesystem.LowLevel.Linking.{Retags, tag_file_lem, untag_file_lem}
use tag_filesystem.LowLevel.Os.{Os}
use tag_filesystem.LowLevel.State.Runs.{reply-run, load_inode-run}
use tag_filesystem.LowLevel.State.{Inode, Session, reply_err}
use tag_filesystem.LowLevel.Tag.{tag_file, untag_file}
use tag_filesystem.LowLevel.View.{as_fs}

module _ ⦃U : Uthash⦄ ⦃O : Os⦄ ⦃F : FuseOs⦄ (w : F.World) where
  untag_all_lem :
      (s : Session) (n v : Bytes) (p q : Ptr)
      → IsValid (as_fs w s)
      → ht_get_entry s.tags v ≡ some p
      → ht_get_entry s.files n ≡ some q
      → Returns (untag_all (v ∷ []) q s) (λ _ s'. Retags w s n v false s')
  unfolding untag_all
  untag_all_lem s n v p q valid ev en =
      rw (tag_get-run s v ev, ◌>>=◌)
        (Returns-bind (untag_file p q) _ s (untag_file_lem w s valid ev en)
          λ _ s' k. (tt, s', refl, k))

  tag_all_lem :
      (s : Session) (n v : Bytes) (p q : Ptr)
      → IsValid (as_fs w s)
      → ht_get_entry s.tags v ≡ some p
      → ht_get_entry s.files n ≡ some q
      → Returns (tag_all (v ∷ []) q s) (λ _ s'. Retags w s n v true s')
  unfolding tag_all
  tag_all_lem s n v p q valid ev en =
      rw (tag_get-run s v ev, ◌>>=◌)
        (Returns-bind (tag_file p q) _ s (tag_file_lem w s valid ev en) λ _ s' k. (tt, s', refl, k))

  -- the relation after a renaming of `n` from the tag `v` to the tag `v'`
  abbrev pub moved : Session → Bytes → Bytes → Bytes → Bytes → Bytes → Bool
  moved s n v v' m u =
      if str_eq n m && str_eq v' u
      then true
      else if str_eq n m && str_eq v u
      then false
      else has_tag (as_fs w s) m u

  rename_file_lem :
      (s : Session) (op np : Inode) (n v v' : Bytes) (p p' q : Ptr)
      → IsValid (as_fs w s)
      → (op.number == 1) ≡ false
      → (np.number == 1) ≡ false
      → op.tag ≡ v ∷ []
      → np.tag ≡ v' ∷ []
      → ht_get_entry s.tags v ≡ some p
      → ht_get_entry s.tags v' ≡ some p'
      → ht_get_entry s.files n ≡ some q
      → Returns (rename_file op np q s) (λ _ s'. Answers w s (reply_err 0) (moved s n v v') s')
  unfolding rename_file
  rename_file_lem s op np n v v' p p' q valid o1 n1 ot nt ev ev' en =
      let allowed : (op.number == 1
            || np.number == 1
            || ltb 1 (length op.tag)
            || ltb 1 (length np.tag))
          ≡ false =
        rw (o1, n1, ot, nt) refl in
      rw (allowed, ot, nt)
        (Returns-bind (untag_all (v ∷ []) q) _ s (untag_all_lem s n v p q valid ev en) λ _ s1 k.
          Returns-bind (tag_all (v' ∷ []) q) _ s1
            (tag_all_lem s1 n v' p' q k.changes.valid (rw k.same_tags ev') (rw k.same_files en))
            λ _ s' k'. (
              tt,
              _,
              reply-run s' _,
              record {
                valid = k'.changes.valid;
                relation = λ m u.
                    k'.changes.view m u
                    ∙ ap (λ b. if str_eq n m && str_eq v' u then true else b) (k.changes.view m u);
                answer = ap (λ l. l ++ reply_err 0 ∷ []) (k'.same_replies ∙ k.same_replies);
              },
            ))

  -- `tag_rename` between the directories of two tags, neither the root, for a known file, on a
  -- session with a valid view, does not fault, is answered with success once and keeps the view
  -- valid; the file then has the tag of the new directory, and not that of the old one unless
  -- they are the same, and nothing else changes. The new name is not looked at.
  pub tag_rename_lem :
      (s : Session) (parent newparent : ℕ) (i j : Ptr) (op np : Inode) (n newname v v' : Bytes)
      (p p' q : Ptr)
      → IsValid (as_fs w s)
      → (parent == newparent) ≡ false
      → ht_get_entry s.itable (ino_key parent) ≡ some i
      → s.inode_at i ≡ some op
      → ht_get_entry s.itable (ino_key newparent) ≡ some j
      → s.inode_at j ≡ some np
      → (op.number == 1) ≡ false
      → (np.number == 1) ≡ false
      → op.tag ≡ v ∷ []
      → np.tag ≡ v' ∷ []
      → ht_get_entry s.tags v ≡ some p
      → ht_get_entry s.tags v' ≡ some p'
      → ht_get_entry s.files n ≡ some q
      → Returns
          (tag_rename parent n newparent newname s)
          (λ _ s'. Answers w s (reply_err 0) (moved s n v v') s')
  unfolding tag_rename rename_found
  tag_rename_lem s parent newparent i j op np n newname v v' p p' q valid other oi oh ni nh o1 n1 ot
        nt ev ev' en =
      rw
        (
          other,
          inode_get-run s parent oi,
          ◌>>=◌,
          inode_get-run s newparent ni,
          file_get-run s n en,
          load_inode-run s i oh,
          load_inode-run s j nh,
        )
        (rename_file_lem s op np n v v' p p' q valid o1 n1 ot nt ev ev' en)
