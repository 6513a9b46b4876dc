-- ===== src/Export/Storage.antt =====
-- src/factory/storage.py: the upload of a batch's files. The S3 client's `upload_file`, of a name, a
-- bucket and a key, and the text of an id are parameters; a listing of a directory has the names in
-- the order of `sorted`, each with whether it is a file.
use human_data.Config.Environment.{Environ, filled, get_or}
use human_data.Prelude.{
  List, Option, String, some, if◌then◌else◌, str_append, Bool, ◌&&◌, ◌∷◌, none, ◌≡◌, ◌∷◌, true, any,
  not, map, [], str_eq, select, Bool-cases, inl, inr, refl, Char, code, ◌==◌,
}
use human_data.Model.Json.{Fields, Json, end, null, field, text, obj}
use human_data.Model.Entities.{Ident}

pub record S3ExportStorage : Type 0 where
  pub bucket : String
  pub prefix : String
  pub endpoint_url : Option String

abbrev is_slash : Char → Bool
is_slash c = code c == 47

unfoldable pub strip_slashes_left : String → String
strip_slashes_left String.[] = ""
strip_slashes_left (String.◌∷◌ c s) =
    let rest = strip_slashes_left s in if is_slash c then rest else String.◌∷◌ c s

abbrev end_slash : Char → String → String
end_slash c String.[] = if is_slash c then "" else String.◌∷◌ c ""
end_slash c (String.◌∷◌ d s) = String.◌∷◌ c (String.◌∷◌ d s)

unfoldable pub strip_slashes_right : String → String
strip_slashes_right String.[] = ""
strip_slashes_right (String.◌∷◌ c s) = end_slash c (strip_slashes_right s)

-- `prefix.strip("/")`
abbrev pub strip_slashes : String → String
strip_slashes s = strip_slashes_right (strip_slashes_left s)

-- `get_storage`, with `__init__`
unfoldable pub get_storage : Environ → Option S3ExportStorage
unfolding strip_slashes_left strip_slashes_right
get_storage environ = elim (filled environ "HDF_EXPORT_S3_BUCKET") [
  | none ↦ none
  | some bucket ↦ some (record {
    bucket = bucket;
    prefix = strip_slashes (get_or environ "HDF_EXPORT_S3_PREFIX" "exports");
    endpoint_url = filled environ "HDF_EXPORT_S3_ENDPOINT";
  })
]

-- an entry of a directory
abbrev pub Listed : Type 0
Listed = String × Bool

-- a file, and one of `only` where that is given
abbrev pub is_wanted : Option (List String) → Listed → Bool
is_wanted none f = f.1
is_wanted (some only) f = f.1 && any (λ name. str_eq name f.0) only

abbrev pub key_for : S3ExportStorage → String → String → String
key_for storage batch_id name =
    str_append storage.prefix (str_append "/" (str_append batch_id (str_append "/" name)))

abbrev with_key :
    String × String → Option (List (String × String)) → Option (List (String × String))
with_key k none = none
with_key k (some keys) = some (k ∷ keys)

-- the loop of `upload_batch`; `none` is an exception of an upload
unfoldable pub upload_all :
    (String → String → String → Bool)
    → S3ExportStorage
    → String
    → Option (List String)
    → List Listed
    → Option (List (String × String))
upload_all upload_file storage batch_id only [] = some []
upload_all upload_file storage batch_id only (f ∷ files) =
    let rest = upload_all upload_file storage batch_id only files in
    let key = key_for storage batch_id f.0 in
    if not (is_wanted only f)
    then rest
    else (if upload_file f.0 storage.bucket key then with_key (f.0, key) rest else none)

abbrev keys_json : List (String × String) → Fields
keys_json [] = end
keys_json (k ∷ keys) = field k.0 (text k.1) (keys_json keys)

abbrev endpoint_json : Option String → Json
endpoint_json none = null
endpoint_json (some url) = text url

abbrev block_of : S3ExportStorage → List (String × String) → Fields
block_of storage keys = field "backend" (text "s3") (
    field "bucket" (text storage.bucket) (
      field "endpoint" (endpoint_json storage.endpoint_url)
        (field "keys" (obj (keys_json keys)) end)))

-- the block of the manifest that `upload_batch` returns
unfoldable pub upload_batch :
    (String → String → String → Bool)
    → S3ExportStorage
    → String
    → Option (List String)
    → List Listed
    → Option Fields
unfolding upload_all
upload_batch upload_file storage batch_id only files =
    elim (upload_all upload_file storage batch_id only files) [
      | none ↦ none
      | some keys ↦ some (block_of storage keys)
    ]

-- `keys.update` with one key
abbrev put_key : List (String × String) → String × String → List (String × String)
put_key [] k = k ∷ []
put_key (x ∷ xs) k = let rest = put_key xs k in if str_eq x.0 k.0 then k ∷ xs else x ∷ rest

abbrev update_keys : List (String × String) → List (String × String) → List (String × String)
update_keys keys [] = keys
update_keys keys (k ∷ ks) = update_keys (put_key keys k) ks

-- Both uploads of a release: the data files, then the manifest alone. `listing` is the directory
-- before the manifest is written, `after` the one with it.
unfoldable pub release_block :
    (String → String → String → Bool)
    → S3ExportStorage
    → (Ident → String)
    → List Listed
    → List Listed
    → Ident
    → Option Fields
unfolding upload_all
release_block upload_file storage id_text listing after batch_id =
    elim (upload_all upload_file storage (id_text batch_id) none listing) [
      | none ↦ none
      | some keys ↦
          elim (upload_all upload_file storage (id_text batch_id) (some ("manifest.json" ∷ []))
            after) [ none ↦ none | some more ↦ some (block_of storage (update_keys keys more)) ]
    ]

-- Where no upload fails: exactly the files that are wanted are uploaded, each under its own name
-- below the prefix and the batch.
pub upload_all-keys :
    (upload_file : String → String → String → Bool) (storage : S3ExportStorage) (batch_id : String)
    (only : Option (List String)) (files : List Listed)
    → ((name bucket key : String) → upload_file name bucket key ≡ true)
    → upload_all upload_file storage batch_id only files
      ≡ some (
          map (λ (f : Listed). (f.0, key_for storage batch_id f.0)) (select (is_wanted only) files))
unfolding upload_all
upload_all-keys upload_file storage batch_id only [] works = refl
upload_all-keys upload_file storage batch_id only (f ∷ files) works =
    elim (Bool-cases (is_wanted only f)) [
      | inl wanted ↦ rw (
        wanted,
        works f.0 storage.bucket (key_for storage batch_id f.0),
        upload_all-keys upload_file storage batch_id only files works,
      )
      | inr left_out ↦ rw (left_out, upload_all-keys upload_file storage batch_id only files works)
    ]
