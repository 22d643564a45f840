-- ===== src/Cutil/HashTable/Instance.antt =====
-- The interface can be met: a table as the list of its entries.
use tag_filesystem.Base.{refl, [], ◌∷◌, ◌++◌, length}
use tag_filesystem.Cutil.HashTable.Assoc.{Entries, lookup, erase}
use tag_filesystem.Cutil.HashTable.Interface.{Uthash}

instance abbrev pub list_uthash : Uthash
list_uthash = record {
  Table = Entries;
  empty = [];
  add = λ h k v. h ++ (k, v) ∷ [];
  find = λ h k. lookup k h;
  del = λ h k. erase k h;
  entries = λ h. h;
  count = length;
  entries-empty = refl;
  entries-add = λ h k v. refl;
  find-finds = λ h k. refl;
  find-lookup = λ h k u. refl;
  entries-del = λ h k u. refl;
  count-length = λ h. refl;
}
