-- ===== src/Lib.antt =====
-- A file system in user space whose directories are tags: a path is a set of tags and a file name,
-- and a link or an unlink gives tags to a file or takes them away. This library models the program of
-- the directory fuse/, the second one of the directory fuse_lowlevel/, which does the same on the inode
-- interface of libfuse, the third one of fuse_sqlite3/, which keeps the tags of the files in a
-- database, and the library cutil/ that all are built on.
--
-- The parts, each with its file here:
--   cutil/hash_table.c       Cutil/HashTable    tables from strings to pointers
--   cutil/list.c             Cutil/CList        a list of pointers with a cursor
--   cutil/string2.c          Cutil/String2      splitting of strings
--   the C library            Cutil/Libc         strtok_r, basename and others, on lists of bytes
--   the system and libfuse   Fuse/Os            a parameter: a state and the calls that act on it
--   the memory               Fuse/State         structs as records, a heap for each, runs
--   fuse/util.c              Fuse/Util
--   fuse/file.c              Fuse/File
--   fuse/tag.c               Fuse/Tag, Fuse/TagDb
--   fuse/path.c              Fuse/UserPath
--   fuse/file_descriptor.c   Fuse/Descriptor
--   fuse/tagfs.c             Fuse/TagFs and the modules below it
--   the system and libfuse   LowLevel/Os        the same for fuse_lowlevel/, with the bytes of an entry
--   the memory               LowLevel/State     with the list of the answers that were given
--   fuse_lowlevel/inode.c    LowLevel/Inode     with tag_get of tag.c and tag_realpath of real.c
--   fuse_lowlevel/file.c     LowLevel/File
--   fuse_lowlevel/tag.c      LowLevel/Tag       with parse.c
--   fuse_lowlevel/real.c     LowLevel/Real
--   fuse_lowlevel/file_descriptor.c   LowLevel/FileDescriptor
--   fuse_lowlevel/fuse_callback.c     LowLevel/Callback and the modules below it;
--                            Answering counts the answers
--   SQLite                   Sqlite/Database    a parameter: a database, statements, their steps
--   schema.sql               Sqlite/Links       what SQLite documents of the table of the links
--   the memory               Sqlite/State       with the database
--   fuse_sqlite3/db.c        Sqlite/Query       the texts of the queries over names
--                            Sqlite/Statements  the statements that change or count the links
--                            Sqlite/Listing     the functions that list a directory
--                            Sqlite/Number      how `atoi` and the format "%d" treat numbers
--   fuse_sqlite3/file.c      Sqlite/File
--   fuse_sqlite3/tag.c       Sqlite/Tag, Sqlite/TagDb
--   fuse_sqlite3/path.c      Sqlite/UserPath
--   fuse_sqlite3/file_descriptor.c    Sqlite/Descriptor
--   fuse_sqlite3/tagfs.c     Sqlite/TagFs and the modules below it
--                            Sqlite/Serving     its table of operations, and sequences of calls
-- Functions keep their names; `tag_get_or_create__` is `tag_get_or_create_in`. A function that touches
-- the store is a command, which takes the store and returns a result and the new store, or `none` for
-- a fault: an access through an address that holds nothing, a write out of bounds, a call on NULL.
-- Paths belong to one call or one descriptor and are values.
--
-- How the parts interact: an operation of tagfs.c makes a path (path.c), which selects tags (tag.c)
-- by the parts of its directory (string2.c) and counts a reference to each. Tags and files refer to
-- each other through tables (hash_table.c); a change of the tags of a file wakes its descriptors. The
-- relation between the names of files and of tags in Fuse/Valid is the abstract view of the store; a
-- store is valid if both sides agree on it and no pointer dangles. The tables of uthash.h are the
-- interface `Uthash`, with the documented behaviour of its macros as laws and a list as an instance.
--
-- In fuse_lowlevel/ a handler gets the numbers of inodes, which inode.c keeps in a table, and answers by
-- a call of libfuse; a call that waits for ever for a lock of its own thread is a fault as well. The
-- tags and files of a session are, through LowLevel/View, a store of fuse/, and the abstract view is
-- the relation of that store.
--
-- In fuse_sqlite3/ the names of tags and files are in memory, with a number for each, and the links
-- between the numbers are in the database, which is asked by texts with the numbers in them. The
-- relation of names in Sqlite/Valid is read from both; a store is valid if the numbers of the names
-- are different and the database has no link of a number that is still to come. A name that is no tag
-- is INVALID_TAG, an address that is not NULL and holds nothing.
--
-- Bounds and fuel: `int` counts are bit patterns modulo 2^32. The splitting loops have the length of
-- the string and one more as fuel, as each round takes a character at least; the reader of the
-- database likewise; the loops over the rows of a statement need a round for each row and one more;
-- the loop of `list_remove_value` has a round for each node and one more.
--
-- Not modelled: locks and threads (the model is sequential), allocation failure, memory that is given
-- back where nothing reads it later, log output, `main`, the branches for version 30 of libfuse; the
-- opening of the root directory and the replaced chdir of real.c; the opening of the database and
-- db_query in fuse_sqlite3/db.c; the unfinished kmod/, which does not compile, tools and tests.
pub mod Base
pub mod Cutil
pub mod Fuse
pub mod LowLevel
pub mod Sqlite
