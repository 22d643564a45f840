-- ===== src/Fuse/File/Notify.antt =====
-- What `notify_descriptors_poll` changes: the events of the file, and the world outside.
use Prim.Native.Nat.{bit_or}
use tag_filesystem.Base.{
  ℕ, ◌≡◌, refl, ap, ◌∙◌, Option, some, [], ◌∷◌, arith, inl, inr, Option-cases, ==_iff,
}
use tag_filesystem.Cutil.HashTable.{
  Ptr, Entries, Uthash, HashTable, ht_entries, ht_add_unique_entry, ht_remove_entry,
}
use tag_filesystem.Fuse.File.{
  notify_descriptor, notify_descriptors_poll, file_add_tag, file_remove_tag,
}
use tag_filesystem.Fuse.Os.{Os}
use tag_filesystem.Fuse.Util.{pollin, pollout}
use tag_filesystem.Fuse.State.Writes.{
  write_self, write-write, write_at, load_tag-run, load_file-run, store_file-run,
}
use tag_filesystem.Fuse.State.{
  Tag, File, FileDescriptor, Fs, write, ◌>>=◌, ◌>>◌, load_file, store_file, load_fd, for_each,
  put_file, each_entry,
}

module _ ⦃U : Uthash⦄ ⦃O : Os⦄ where
  -- every descriptor of the table is open
  abbrev pub AllOpen : Fs → Entries → Type 0
  AllOpen s [] = Unit
  AllOpen s ((_, fd) ∷ es) = ((d : FileDescriptor) × (s.fd_at fd ≡ some d)) × AllOpen s es

  -- the file at `q` is `f`, with other events
  abbrev pub touched : Fs → Ptr → File → ℕ → O.World → Fs
  touched s q f r w = record s {
    file_at = write s.file_at q (some (record f { revents = r }));
    world = w;
  }

  touched_self :
      (s : Fs) (q : Ptr) (f : File) → s.file_at q ≡ some f → touched s q f f.revents s.world ≡ s
  touched_self s q f e = ap (λ h. record s { file_at = h }) (write_self s.file_at q (some f) e)

  touched-touched :
      (s : Fs) (q : Ptr) (f : File) (r r' : ℕ) (w w' : O.World)
      → touched (touched s q f r w) q (record f { revents = r }) r' w' ≡ touched s q f r' w'
  touched-touched s q f r r' w w' =
      ap (λ h. record s { file_at = h; world = w' }) (write-write s.file_at q _ _)

  touched-file_at :
      (s : Fs) (q : Ptr) (f : File) (r : ℕ) (w : O.World)
      → (touched s q f r w).file_at q ≡ some (record f { revents = r })
  unfolding write
  touched-file_at s q f r w = ground (arith, ==_iff q q)

  -- the loop does not fault
  abbrev Touches : Fs → Ptr → File → Option (Unit {0} × Fs) → Type 0
  Touches s q f res = (r : ℕ) × (w : O.World) × (res ≡ some (tt, touched s q f r w))

  notify_descriptor-Touches :
      (s : Fs) (q : Ptr) (f : File) (event : ℕ) (fd : Ptr) (d : FileDescriptor)
      → s.file_at q ≡ some f
      → s.fd_at fd ≡ some d
      → Touches s q f (notify_descriptor q event fd s)
  unfolding notify_descriptor load_fd load_file store_file
  notify_descriptor-Touches s q f event fd d ef ed = elim (Option-cases d.ph) [
    | inl e ↦ (f.revents, s.world, rw (touched_self s q f ef) (ground arith))
    | inr (ph, e) ↦ (bit_or f.revents event, O.notify_poll s.world ph, ground arith)
  ]

  for_each-Touches :
      (es : Entries) (s : Fs) (q : Ptr) (f : File) (event : ℕ)
      → s.file_at q ≡ some f
      → AllOpen s es
      → Touches s q f (for_each es (λ _ fd. notify_descriptor q event fd) s)
  unfolding for_each
  for_each-Touches [] s q f event ef open' = (f.revents, s.world, rw (touched_self s q f ef) refl)
  for_each-Touches ((k, fd) ∷ es) s q f event ef ((d, ed), open') =
      let (r, w, e) = notify_descriptor-Touches s q f event fd d ef ed in
      let (r', w', e') =
        for_each-Touches es (touched s q f r w) q (record f { revents = r }) event
          (touched-file_at s q f r w) open' in
      (r', w', rw (e, ◌>>=◌) (e' ∙ ap (λ x. some (tt, x)) (touched-touched s q f r r' w w')))

  -- the file at `q` is `f`, with another table of tags and other events
  abbrev pub retagged : Fs → Ptr → File → HashTable → ℕ → O.World → Fs
  retagged s q f tags r w = record s {
    file_at = write s.file_at q (some (record f { tags = tags; revents = r }));
    world = w;
  }

  -- the store of a new table of tags, and the notification behind it
  store_tags-retagged :
      (s : Fs) (q : Ptr) (f : File) (tags : HashTable) (event : ℕ)
      → s.file_at q ≡ some f
      → AllOpen s (ht_entries f.descriptors)
      → (r : ℕ) × (w : O.World) × ((store_file q (record f { tags = tags })
              >> notify_descriptors_poll q event)
            s
          ≡ some (tt, retagged s q f tags r w))
  unfolding notify_descriptors_poll each_entry
  store_tags-retagged s q f tags event ef open' =
      let f' : File = record f { tags = tags } in
      let ef' = write_at s.file_at q (some f') in
      let (r, w, e) =
        for_each-Touches (ht_entries f.descriptors) (put_file q f' s) q f' event ef' open' in
      (
        r,
        w,
        rw (store_file-run s q f' ef, ◌>>=◌, load_file-run (put_file q f' s) q ef')
            (e
              ∙ ap (λ h. some (tt, record s { file_at = h; world = w }))
                  (write-write s.file_at q _ _)),
      )

  pub file_add_tag-retagged :
      (s : Fs) (q p : Ptr) (f : File) (t : Tag)
      → s.file_at q ≡ some f
      → s.tag_at p ≡ some t
      → AllOpen s (ht_entries f.descriptors)
      → (r : ℕ) × (w : O.World) × (file_add_tag q p s
          ≡ some (tt, retagged s q f (ht_add_unique_entry f.tags t.value p).1 r w))
  unfolding file_add_tag
  file_add_tag-retagged s q p f t ef et open' =
      let (r, w, e) =
        store_tags-retagged s q f (ht_add_unique_entry f.tags t.value p).1 pollin ef open' in
      (r, w, rw (load_file-run s q ef, ◌>>=◌, load_tag-run s p et) e)

  pub file_remove_tag-retagged :
      (s : Fs) (q p : Ptr) (f : File) (t : Tag)
      → s.file_at q ≡ some f
      → s.tag_at p ≡ some t
      → AllOpen s (ht_entries f.descriptors)
      → (r : ℕ) × (w : O.World) × (file_remove_tag q p s
          ≡ some (tt, retagged s q f (ht_remove_entry f.tags t.value).1 r w))
  unfolding file_remove_tag
  file_remove_tag-retagged s q p f t ef et open' =
      let (r, w, e) =
        store_tags-retagged s q f (ht_remove_entry f.tags t.value).1 pollout ef open' in
      (r, w, rw (load_file-run s q ef, ◌>>=◌, load_tag-run s p et) e)
