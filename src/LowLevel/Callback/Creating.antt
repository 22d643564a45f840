-- ===== src/LowLevel/Callback/Creating.antt =====
-- What `tag_mkdir` makes, and what it answers.
use tag_filesystem.Base.Store.{◌>>=◌, Returns, write, write_at}
use tag_filesystem.Base.{
  ℕ, ◌+◌, ◌^◌, ◌<◌, ◌≡◌, refl, true, none, some, List, [], ◌∷◌, ◌++◌, Bytes, arith, str_eq,
  if◌then◌else◌,
}
use tag_filesystem.Cutil.HashTable.{Ptr, Uthash, ht_create, ht_get_entry, ht_add_entry, get-add}
use tag_filesystem.Fuse.Os.{Os as FuseOs, done}
use tag_filesystem.Fuse.State.{Fs}
use tag_filesystem.Fuse.Valid.Creation.{with_tag, with_tag-IsValid}
use tag_filesystem.Fuse.Valid.{IsValid, has_tag}
use tag_filesystem.LowLevel.Callback.Answer.{stat_into, answer_entry, next_gen_number}
use tag_filesystem.LowLevel.Callback.Making.{tag_mkdir, make_tag}
use tag_filesystem.LowLevel.Callback.Relations.{inode_get-run, generation_of}
use tag_filesystem.LowLevel.Inode.{ino_key, tag_get}
use tag_filesystem.LowLevel.Inodes.{
  AreSound, with_inode, directory_inode, with_inode-get, with_inode-AreSound,
  create_directory_inode_lem,
}
use tag_filesystem.LowLevel.Os.{Os, Attr}
use tag_filesystem.LowLevel.State.Runs.{load_inode-run}
use tag_filesystem.LowLevel.State.{Inode, Session, Reply, new_tag, reply_entry, reply}
use tag_filesystem.LowLevel.Tag.{tag_new, tag_get_or_create}
use tag_filesystem.LowLevel.View.{as_fs, as_tag, map_heap-write}

module _ ⦃U : Uthash⦄ ⦃O : Os⦄ where
  -- the session with a tag more
  abbrev pub tagged : Session → Bytes → Session
  tagged s name = record s {
    tags = (ht_add_entry s.tags name s.next).1;
    tag_at = write s.tag_at s.next (some (record { value = name; files = ht_create }));
    next = s.next + 1;
  }

  tag_get_or_create-new :
      (s : Session) (name : Bytes)
      → ht_get_entry s.tags name ≡ none
      → tag_get_or_create name s ≡ some (s.next, tagged s name)
  unfolding tag_get_or_create tag_new new_tag
  tag_get_or_create-new s name e = rw (e, ◌>>=◌) refl

  tagged-AreSound : (s : Session) (name : Bytes) → AreSound s → AreSound (tagged s name)
  tagged-AreSound s name sound = record {
    unique = sound.unique;
    unused = sound.unused;
    numbered = sound.numbered;
    allocated = λ i ino e. omega (arith, sound.allocated i ino e);
    small = sound.small;
  }

  quiet-AreSound :
      (s : Session) (w1 : O.World) (g : ℕ) (rs : List Reply)
      → AreSound s
      → AreSound (record s { world = w1; next_gen = g; replies = rs })
  quiet-AreSound s w1 g rs sound = record {
    unique = sound.unique;
    unused = sound.unused;
    numbered = sound.numbered;
    allocated = sound.allocated;
    small = sound.small;
  }

  module _ ⦃F : FuseOs⦄ (w : F.World) where
    pub later-IsValid : {s : Fs} → IsValid s → IsValid (record s { next = s.next + 1 })
    later-IsValid valid = record {
      tags_unique = valid.tags_unique;
      files_unique = valid.files_unique;
      tag_named = valid.tag_named;
      file_named = valid.file_named;
      tag_ok = λ p t e.
          let ok = valid.tag_ok p t e in
          record { fresh = omega (arith, ok.fresh); unique = ok.unique; listed = ok.listed };
      file_ok = λ q f e.
          let ok = valid.file_ok q f e in
          record {
            fresh = omega (arith, ok.fresh);
            unique = ok.unique;
            listed = ok.listed;
            tagged = ok.tagged;
            open' = ok.open';
          };
      mutual' = valid.mutual';
    }

    as_fs-tagged :
        (s : Session) (name : Bytes) → as_fs w (tagged s name) ≡ with_tag (as_fs w s) name true
    as_fs-tagged s name = rw (map_heap-write as_tag s.tag_at s.next) refl

    -- what `tag_mkdir` leaves of a session
    pub record MakesTag (s : Session) (name : Bytes) (st : Attr) (s' : Session) : Type 0 where
      pub valid : IsValid (as_fs w s')
      pub relation : (n v : Bytes) → has_tag (as_fs w s') n v ≡ has_tag (as_fs w s) n v
      pub tags :
          (v : Bytes)
          → ht_get_entry s'.tags v ≡ (if str_eq name v then some s.next else ht_get_entry s.tags v)
      pub sound : AreSound s'
      pub inode :
          (i : Ptr) × (ino : Inode) × (ht_get_entry s'.itable (ino_key s.next_ino) ≡ some i)
          × (s'.inode_at i ≡ some ino)
          × (ino.name ≡ some name)
          × (ino.nlookup ≡ 0)
      pub answer :
          s'.replies
          ≡ s.replies
            ++ reply_entry (record {
              ino = s.next_ino;
              generation = generation_of s;
              attr = record st { st_ino = s.next_ino };
            })
              ∷ []

    -- `tag_mkdir` in the root, for a name that is no tag, on a session with a valid view and a
    -- sound table of inodes with room for one number more, where the root directory can be
    -- examined, does not fault; the tag is registered under its name, no file has other tags than
    -- before, the view stays valid and the table sound, a new inode of the next number has the
    -- name and no lookups, and the one answer is an entry for it with the attributes of the root
    -- directory.
    pub tag_mkdir-MakesTag :
        (s : Session) (name : Bytes) (i : Ptr) (root : Inode) (st : Attr) (w1 : O.World)
        → IsValid (as_fs w s)
        → AreSound s
        → s.next_ino + 1 < 2 ^ 31
        → ht_get_entry s.tags name ≡ none
        → ht_get_entry s.itable (ino_key 1) ≡ some i
        → s.inode_at i ≡ some root
        → O.stat s.world O.realdirpath ≡ (done st, w1)
        → Returns (tag_mkdir 1 name s) (λ _ s'. MakesTag s name st s')
    unfolding has_tag tag_mkdir make_tag tag_get stat_into answer_entry next_gen_number reply
    tag_mkdir-MakesTag s name i root st w1 valid sound room absent known here stat' =
        let s1 : Session = tagged s name in
        let sound1 = tagged-AreSound s name sound in
        let (h, e, run) = create_directory_inode_lem i root name s1 sound1 here in
        let ino = directory_inode s.next_ino root name h in
        let s2 : Session = with_inode s1 ino in
        let s3 : Session = record s2 { world = w1 } in
        rw
          (
            absent,
            tag_get_or_create-new s name absent,
            ◌>>=◌,
            inode_get-run s1 1 known,
            run,
            stat',
            load_inode-run s3 s1.next (write_at s1.inode_at s1.next _),
          )
          (
            tt,
            _,
            refl,
            record {
              valid =
                  later-IsValid {s = as_fs w s1}
                    (rw (as_fs-tagged s name) (with_tag-IsValid valid name true absent));
              relation = λ n v. refl;
              tags = λ v. get-add s.tags name v s.next valid.tags_unique absent;
              sound = quiet-AreSound s2 w1 _ _ (with_inode-AreSound s1 ino sound1 refl room);
              inode = (
                s1.next,
                ino,
                ground (arith, with_inode-get s1 ino sound1 s.next_ino),
                write_at s1.inode_at s1.next _,
                refl,
                refl,
              );
              answer = refl;
            },
          )
