-- ===== src/LowLevel/Examples.antt =====
-- The theorems on the small session of LowLevel/Examples/Store.
mod Store
use tag_filesystem.Base.Store.{Returns, write}
use tag_filesystem.Base.{
  ℕ, ◌≡◌, ◌≢◌, refl, true, false, none, some, [], ◌∷◌, ◌++◌, Bytes, is_some, if◌then◌else◌, str_eq,
  codes, arith, ltb, ◌==◌, ◌&&◌, ◌+◌, ◌-◌, ◌<◌, ◌≤◌, ◌^◌, length, drop, take, replicate,
}
use tag_filesystem.Cutil.HashTable.Instance.{list_uthash}
use tag_filesystem.Cutil.HashTable.{
  ht_create, ht_add_entry, ht_entries, ht_get_entry, ht_entry_count, HashTable, ht_add_unique_entry,
  ht_has_entry,
}
use tag_filesystem.Fuse.Os.{done}
use tag_filesystem.Fuse.Examples.Store.{small_os, f, red, blue}
use tag_filesystem.Fuse.TagFs.Content.{TagIoctl}
use tag_filesystem.Fuse.Util.{einval}
use tag_filesystem.Fuse.Valid.Selection.{Selects}
use tag_filesystem.Fuse.Valid.{has_tag}
use tag_filesystem.LowLevel.Callback.Answer.{reply_buf_limited, next_gen_number}
use tag_filesystem.LowLevel.Callback.Attr.{tag_forget}
use tag_filesystem.LowLevel.Answering.Protocol.{tag_oper-replies}
use tag_filesystem.LowLevel.Callback.Table.{tag_oper}
use tag_filesystem.LowLevel.Callback.Table.Request.{opendir}
use tag_filesystem.LowLevel.Callback.Content.{tag_opendir, tag_read, tag_ioctl}
use tag_filesystem.LowLevel.Callback.Creating.{MakesTag, tag_mkdir-MakesTag}
use tag_filesystem.LowLevel.Callback.Dir.{readdir_get_selected_files}
use tag_filesystem.LowLevel.Callback.Faults.{tag_rmdir-none}
use tag_filesystem.LowLevel.Callback.Linking.{tag_link, tag_rename}
use tag_filesystem.LowLevel.Callback.Making.{tag_unlink, tag_mkdir, tag_rmdir}
use tag_filesystem.LowLevel.Callback.Reading.{reply_buf_limited_lem, tag_read_lem}
use tag_filesystem.LowLevel.Callback.Relations.{
  Answers, generation_of, tag_unlink_lem, tag_link_lem,
}
use tag_filesystem.LowLevel.Callback.Renaming.{moved, tag_rename_lem}
use tag_filesystem.LowLevel.Examples.Store.{
  small_low_os, root_attr, session, session-IsValid, session-AreSound, root_inode, file_inode,
  red_inode, blue_inode, red_tag, file_f,
}
use tag_filesystem.LowLevel.Inode.{ino_key, inode_get, inode_new}
use tag_filesystem.LowLevel.Linking.{Retags, relinked, tag_file-Retags}
use tag_filesystem.Fuse.Valid.Matching.{has_all}
use tag_filesystem.LowLevel.Inodes.{AreSound, inode_new-AreSound}
use tag_filesystem.LowLevel.Listing.{
  Gathers, has_any, all_have, readdir_get_selected_files_lem, readdir_get_selected_files-none,
}
use tag_filesystem.LowLevel.Numbers.{Forgets, tag_forget_lem, next_gen_number_lem}
use tag_filesystem.LowLevel.State.Runs.{answered}
use tag_filesystem.LowLevel.State.{
  Session, invalid_tag, reply_err, reply_entry, reply_buf, reply_open, Reply, load_inode, reply,
}
use tag_filesystem.LowLevel.View.{as_fs, map_heap}

inode_at_1 : ht_get_entry session.itable (ino_key 1) ≡ some 3
unfolding ht_get_entry ht_add_entry ht_create str_eq
inode_at_1 = refl

inode_at_2 : ht_get_entry session.itable (ino_key 2) ≡ some 4
unfolding ht_get_entry ht_add_entry ht_create str_eq
inode_at_2 = refl

inode_at_3 : ht_get_entry session.itable (ino_key 3) ≡ some 5
unfolding ht_get_entry ht_add_entry ht_create str_eq
inode_at_3 = refl

inode_at_4 : ht_get_entry session.itable (ino_key 4) ≡ some 6
unfolding ht_get_entry ht_add_entry ht_create str_eq
inode_at_4 = refl

red_at : ht_get_entry session.tags red ≡ some 1
unfolding ht_get_entry ht_add_entry ht_create str_eq
red_at = refl

blue_at : ht_get_entry session.tags blue ≡ some 2
unfolding ht_get_entry ht_add_entry ht_create str_eq
blue_at = refl

f_at : ht_get_entry session.files f ≡ some 0
unfolding ht_get_entry ht_add_entry ht_create str_eq
f_at = refl

green_absent : ht_get_entry session.tags (codes "green") ≡ none
unfolding ht_get_entry ht_add_entry ht_create str_eq
green_absent = refl

root_here : session.inode_at 3 ≡ some root_inode
unfolding write
root_here = refl

file_here : session.inode_at 4 ≡ some file_inode
unfolding write
file_here = refl

red_here : session.inode_at 5 ≡ some red_inode
unfolding write
red_here = refl

blue_here : session.inode_at 6 ≡ some blue_inode
unfolding write
blue_here = refl

one_tag : ltb 1 (ht_entry_count ((red, 1) ∷ [])) ≡ false
unfolding ht_entry_count
one_tag = refl

tag_unlink_lem_example : Returns (tag_unlink 3 f session) (λ _ s'.
    Answers tt session
      (reply_err 0)
      (λ m u. if str_eq f m && str_eq red u then false else has_tag (as_fs tt session) m u)
      s')
tag_unlink_lem_example =
    tag_unlink_lem tt session 3 5 red_inode ((red, 1) ∷ []) f red 1 0 session-IsValid inode_at_3
      red_here refl refl refl red_at refl f_at refl one_tag

tag_rename_lem_example :
    Returns
      (tag_rename 3 f 4 (codes "g") session)
      (λ _ s'. Answers tt session (reply_err 0) (moved tt session f red blue) s')
tag_rename_lem_example =
    tag_rename_lem tt session 3 4 5 6 red_inode blue_inode f (codes "g") red blue 1 2 0
      session-IsValid refl inode_at_3 red_here inode_at_4 blue_here refl refl refl refl red_at
      blue_at f_at

same_name : str_eq f f ≡ true
unfolding str_eq
same_name = refl

tag_link_lem_example : Returns (tag_link 2 3 f session) (λ _ s'.
    Answers tt session
      (reply_entry (record { ino = 2; generation = generation_of session; attr = file_inode.st }))
      (λ m u. if str_eq f m && str_eq red u then true else has_tag (as_fs tt session) m u)
      s')
tag_link_lem_example =
    tag_link_lem tt session 2 3 4 5 file_inode red_inode f red f 1 0 session-IsValid inode_at_2
      file_here refl refl same_name inode_at_3 red_here refl refl red_at f_at

stat_root : small_low_os.stat 0 (codes "/r") ≡ (done root_attr, 0)
unfolding str_eq
stat_root = refl

tag_mkdir-MakesTag_example :
    Returns
      (tag_mkdir 1 (codes "green") session)
      (λ _ s'. MakesTag tt session (codes "green") root_attr s')
tag_mkdir-MakesTag_example =
    tag_mkdir-MakesTag tt session (codes "green") 3 root_inode root_attr 0 session-IsValid
      session-AreSound (omega arith) green_absent inode_at_1 root_here stat_root

red-Selects : Selects (as_fs tt session) (red ∷ []) (ht_entries ((red, 1) ∷ []))
unfolding ht_create ht_get_entry ht_add_entry str_eq ht_entries
red-Selects = (refl, refl, tt)

readdir_get_selected_files_lem_example :
    (h : HashTable) × Gathers tt session (has_any tt session (red ∷ [])) h
    × (readdir_get_selected_files ((red, 1) ∷ []) session
        ≡ (if all_have tt session (red ∷ []) (ht_entries h) then some (h, session) else none))
readdir_get_selected_files_lem_example =
    readdir_get_selected_files_lem tt session session-IsValid (red ∷ []) ((red, 1) ∷ []) red-Selects

-- the file `f` with the tag `red`
abbrev red_session : Session
red_session =
    relinked session 1 0 red_tag file_f (ht_add_unique_entry red_tag.files f 0).1
      (ht_add_unique_entry file_f.tags red 1).1

red_session-Retags : Retags tt session f red true red_session
unfolding write
red_session-Retags =
    tag_file-Retags tt session session-IsValid 1 0 {t = red_tag} {f = file_f} refl refl red_at

both-Selects :
    Selects (as_fs tt red_session) (red ∷ blue ∷ []) (ht_entries ((red, 1) ∷ (blue, 2) ∷ []))
unfolding ht_create ht_get_entry ht_add_entry str_eq ht_entries
both-Selects = (refl, refl, (refl, refl, tt))

f_known : is_some (ht_get_entry red_session.files f) ≡ true
unfolding ht_create ht_get_entry ht_add_entry str_eq
f_known = refl

red_given : has_any tt red_session (red ∷ blue ∷ []) f ≡ true
unfolding str_eq
red_given = rw (red_session-Retags.changes.view f red) refl

blue_missing : has_all (as_fs tt red_session) f (red ∷ blue ∷ []) ≡ false
unfolding str_eq has_tag ht_create ht_get_entry ht_add_entry ht_has_entry ht_add_unique_entry
    map_heap write
blue_missing = refl

readdir_get_selected_files-none_example :
    readdir_get_selected_files ((red, 1) ∷ (blue, 2) ∷ []) red_session ≡ none
readdir_get_selected_files-none_example =
    readdir_get_selected_files-none tt red_session red_session-Retags.changes.valid
      (red ∷ blue ∷ []) ((red, 1) ∷ (blue, 2) ∷ []) f both-Selects f_known red_given blue_missing

tag_forget_lem_example :
    Returns (tag_forget 2 2 session) (λ _ s'. Forgets session 4 file_inode 2 s')
tag_forget_lem_example =
    tag_forget_lem 2 4 file_inode session session-AreSound.unique inode_at_2 file_here (omega arith)
      (omega arith)

inode_new-AreSound_example : Returns (inode_new true session) (λ i s'.
    AreSound s'
    × ((m : ℕ)
        → ht_get_entry s'.itable (ino_key m)
          ≡ (if session.next_ino == m then some i else ht_get_entry session.itable (ino_key m)))
    × (ht_get_entry session.itable (ino_key session.next_ino) ≡ none))
inode_new-AreSound_example = inode_new-AreSound true session session-AreSound (omega arith)

reply_buf_limited_lem_example :
    reply_buf_limited (codes "abcd") (length (codes "abcd")) 1 2 session
    ≡ some (tt, answered session (reply_buf (take 2 (drop 1 (codes "abcd")))))
reply_buf_limited_lem_example = reply_buf_limited_lem (codes "abcd") 1 2 session

abbrev two_bytes : Bytes
two_bytes = 10 ∷ 20 ∷ []

got_2 : inode_get 2 session ≡ some (some 4, session)
unfolding inode_get ht_get_entry ht_add_entry ht_create str_eq
got_2 = refl

tag_read_lem_example :
    tag_read 2 4 1 3 session
    ≡ some (
      tt,
      answered session (reply_buf (drop 1 (two_bytes ++ replicate (4 - length two_bytes) 0))),
    )
tag_read_lem_example =
    tag_read_lem 2 4 1 3 4 file_inode two_bytes 0 0 session got_2 file_here refl refl refl
      (omega arith)

no_invalid : session.tag_at invalid_tag ≡ none
unfolding write
no_invalid = refl

tag_rmdir-none_example : tag_rmdir 1 (codes "green") session ≡ none
tag_rmdir-none_example = tag_rmdir-none (codes "green") session green_absent no_invalid

got_1 : inode_get 1 session ≡ some (some 3, session)
unfolding inode_get ht_get_entry ht_add_entry ht_create str_eq
got_1 = refl

abbrev no_input : TagIoctl
no_input = record { size = 0; off = 0; buf = [] }

opened : tag_oper (opendir 3) session ≡ some (tt, answered session (reply_open 5))
unfolding tag_oper tag_opendir inode_get load_inode reply write ht_get_entry ht_add_entry ht_create
    str_eq
opened = refl

tag_oper-replies_example :
    (a : Reply) × ((answered session (reply_open 5)).replies ≡ session.replies ++ a ∷ [])
tag_oper-replies_example =
    tag_oper-replies (opendir 3) session (answered session (reply_open 5)) refl opened
