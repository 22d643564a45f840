-- ===== src/LowLevel/Callback/Reading.antt =====
-- The bytes that a read of a file or of a directory answers with.
use tag_filesystem.Base.Store.{◌>>=◌}
use tag_filesystem.Base.{
  ℕ, ◌+◌, ◌-◌, true, leb, ◌≡◌, ◌≤◌, ◌∙◌, ap, sym, refl, false, some, List, Bytes, arith, Bool-cases,
  inl, inr, ltb, length, ◌++◌, replicate, take, length-append, length-replicate, length-drop,
  take_all, drop_all, take-nil, drop, pos,
}
use tag_filesystem.Cutil.HashTable.{Ptr, Uthash}
use tag_filesystem.Fuse.Os.{done}
use tag_filesystem.LowLevel.Callback.Answer.{min, fuse_reply_buf, reply_buf_limited}
use tag_filesystem.LowLevel.Callback.Content.{answer_read, tag_read}
use tag_filesystem.LowLevel.FileDescriptor.{file_read}
use tag_filesystem.LowLevel.Inode.{inode_get}
use tag_filesystem.LowLevel.Os.{Os}
use tag_filesystem.LowLevel.State.Runs.{answered, reply-run, load_inode-run}
use tag_filesystem.LowLevel.State.{Inode, Session, reply, reply_buf}

take-min : {A : Type 0} (m : ℕ) (xs : List A) → take (min (length xs) m) xs ≡ take m xs
take-min m xs = elim (Bool-cases (ltb (length xs) m)) [
  | inl less ↦ rw less (take_all (length xs) xs (omega arith) ∙ sym (take_all m xs (ground arith)))
  | inr more ↦ rw more refl
]

module _ ⦃U : Uthash⦄ ⦃O : Os⦄ where
  -- `reply_buf_limited`, called with the size of the buffer, never reads behind the buffer and gives
  -- one answer: the bytes of the buffer from the offset on, at most as many as asked for, and none at
  -- or behind the end.
  pub reply_buf_limited_lem :
      (buf : Bytes) (off maxsize : ℕ) (s : Session)
      → reply_buf_limited buf (length buf) off maxsize s
        ≡ some (tt, answered s (reply_buf (take maxsize (drop off buf))))
  unfolding reply_buf_limited fuse_reply_buf
  reply_buf_limited_lem buf off maxsize s = elim (Bool-cases (ltb off (length buf))) [
    | inl inside ↦
        let fits : leb (off + min (length buf - off) maxsize) (length buf) ≡ true = ground arith in
        rw (inside, fits)
          (ap (λ n. reply (reply_buf (take (min n maxsize) (drop off buf))) s)
              (sym (length-drop off buf))
            ∙ rw (take-min maxsize (drop off buf)) (reply-run s _))
    | inr behind ↦ rw (behind, drop_all off buf (ground arith), take-nil) (reply-run s _)
  ]

  file_read-run :
      (fd len off : ℕ) (bytes : Bytes) (w1 w2 : O.World) (s : Session)
      → O.lseek s.world fd off ≡ (done tt, w1)
      → O.read w1 fd len ≡ (done bytes, w2)
      → file_read fd len off s
        ≡ some (
          (pos (length bytes), bytes ++ replicate (len - length bytes) 0),
          record s { world = w2 },
        )
  unfolding file_read
  file_read-run fd len off bytes w1 w2 s sought got = rw (sought, got, file_read, ◌>>=◌) refl

  -- A read of an inode that is not the tag file, where the position can be set and the system
  -- returns at most as many bytes as asked for, is answered with what was read, filled up with
  -- zeros to the size that was asked for, but without its first `off` bytes, although the reading
  -- itself began at the offset.
  pub tag_read_lem :
      (number size off fd : ℕ) (i : Ptr) (ino : Inode) (bytes : Bytes) (w1 w2 : O.World)
      (s : Session)
      → inode_get number s ≡ some (some i, s)
      → s.inode_at i ≡ some ino
      → ino.is_tagfile ≡ false
      → O.lseek s.world fd off ≡ (done tt, w1)
      → O.read w1 fd size ≡ (done bytes, w2)
      → length bytes ≤ size
      → tag_read number size off fd s
        ≡ some (
          tt,
          answered
              (record s { world = w2 })
              (reply_buf (drop off (bytes ++ replicate (size - length bytes) 0))),
        )
  unfolding tag_read answer_read
  tag_read_lem number size off fd i ino bytes w1 w2 s known here plain sought got fits =
      rw
        (
          known,
          ◌>>=◌,
          load_inode-run s i here,
          plain,
          file_read-run fd size off bytes w1 w2 s sought got,
        )
        (let buf = bytes ++ replicate (size - length bytes) 0 in
          let full : length buf ≡ size = omega (
            arith,
            length-append bytes (replicate (size - length bytes) 0),
            length-replicate {A = ℕ} (size - length bytes) 0,
          ) in
          ap (λ n. reply_buf_limited buf n off size (record s { world = w2 })) (sym full)
          ∙ reply_buf_limited_lem buf off size (record s { world = w2 })
          ∙ ap (λ b. some (tt, answered (record s { world = w2 }) (reply_buf b)))
              (take_all size (drop off buf) (omega (arith, length-drop off buf))))
