-- ===== src/Sqlite/TagDb.antt =====
-- fuse_sqlite3/tag.c: the reader of the tag database. Its helpers on characters are those of fuse/.
use tag_filesystem.Base.{
  ℕ, zero, suc, Option, none, some, Bytes, ℤ, is_negative, if◌then◌else◌, length,
}
use tag_filesystem.Cutil.HashTable.{Ptr, Uthash}
use tag_filesystem.Cutil.Libc.{is_nil, tail_of}
use tag_filesystem.Fuse.Os.{Os, Stat}
use tag_filesystem.Fuse.TagDb.{max_line, fgets, copy_word_until, skip_spaces, begins_with}
use tag_filesystem.Sqlite.Database.{Sqlite}
use tag_filesystem.Sqlite.File.{file_get_or_create}
use tag_filesystem.Sqlite.State.{Cmd, pure, ◌>>=◌, ◌>>◌, gets}
use tag_filesystem.Sqlite.Tag.{tag_get_or_create, tag_file}

module _ ⦃U : Uthash⦄ ⦃O : Os⦄ ⦃Q : Sqlite⦄ where
  -- the type of the parameter `getattr`
  abbrev pub Getattr : Type 0
  Getattr = Bytes → Cmd (ℤ × Option Stat)

  -- `none` is NULL
  unfoldable pub parse_file : Getattr → Bytes → Cmd (Option Ptr)
  parse_file getattr word = do
    let name = copy_word_until word b']'
    (res, _) ← getattr name
    if is_negative res then pure none else (do q ← file_get_or_create name; pure (some q))

  unfoldable pub parse_tag : Option Ptr → Bytes → Cmd (Unit {0})
  parse_tag f word =
      let name = copy_word_until word b'\n' in
      if is_nil name
      then pure tt
      else (do p ← tag_get_or_create name; elim f [ none ↦ pure tt | some q ↦ tag_file p q ])

  -- one round of the loop of `parse_tags_db2`: the new value of `f`
  unfoldable pub parse_line : Getattr → Option Ptr → Bytes → Cmd (Option Ptr)
  parse_line getattr f word =
      let w = skip_spaces word in
      if begins_with b'#' word
      then pure f
      else if begins_with b'[' w
      then parse_file getattr (tail_of w)
      else (do parse_tag f w; pure f)

  unfoldable pub parse_lines : ℕ → Getattr → Option Ptr → Bytes → Cmd (Unit {0})
  parse_lines zero getattr f fi = λ s. none
  parse_lines (suc fuel) getattr f fi =
      let (word, rest) = fgets max_line fi in
      let later = λ (f' : Option Ptr). parse_lines fuel getattr f' rest in
      if is_nil fi then pure tt else (do f' ← parse_line getattr f word; later f')

  -- the contents of the file; each round takes a byte at least
  unfoldable pub parse_tags_db2 : Bytes → Getattr → Cmd (Unit {0})
  parse_tags_db2 fi getattr = parse_lines (suc (length fi)) getattr none fi

  -- `fclose` is called also where the file could not be opened: `fclose(NULL)`
  unfoldable pub parse_tags_db : Bytes → Getattr → Cmd (Unit {0})
  parse_tags_db filename getattr = do
    fi ← gets (λ s. O.read_file s.world filename)
    elim fi [ none ↦ λ s. none | some text ↦ parse_tags_db2 text getattr ]
