-- ===== src/AccessKeys/Tests.antt =====
-- A keys file with one entry, under scripts/files/access_keys.py and scripts/files/router-keys.py.
use local_gpu_cluster.Prelude.{
  List, All, ◌^◌, ◌*◌, ◌≡◌, ◌≢◌, refl, String, true, false, none, some, [], ◌∷◌, ◌⊎◌, arith, Any,
  str_eq, eq_iff,
}
use local_gpu_cluster.Prelude.Int.{pos}
use local_gpu_cluster.Prelude.Text.{Codes, codes, codes_eq, drop_chars, strip, lower_starts_with}
use local_gpu_cluster.Prelude.Json.{
  Value, int, str, arr, obj, finite, Items, nil, cons, Fields, end, field, to_list, get, put,
}
use local_gpu_cluster.AccessKeys.Principal.{
  Principal, scoped, owner_principal, scoped_endpoint, endpoint_allowed,
}
use local_gpu_cluster.AccessKeys.Store.{
  parse_entry, ok, Content, parsed, KeysFile, Cache, empty_cache, parse_entries, parse_content,
  nobody, someone, authenticate, valid_sha256, item, check_entry, parse_name, parse_sha256,
  parse_aliases, parse_expires, alias_items, valid_name, find_match, reload_if_changed,
}
use local_gpu_cluster.AccessKeys.Served.{Request, IsTame, serve}
use local_gpu_cluster.AccessKeys.Authentication.{IsUnexpired, authenticate_sound, revoked_at_once}
use local_gpu_cluster.AccessKeys.Entries.{ParsesTo, file_entries}
use local_gpu_cluster.AccessKeys.Bearer.{
  HttpRequest, bearer_token, forwarded, require_bearer, is_exempt,
}
use local_gpu_cluster.AccessKeys.Policy.{forwarded_sound}
use local_gpu_cluster.AccessKeys.RouterKeys.{
  new_entry, cmd_add, named, load, write_key, any_named, strip_words, split_comma, Outcome,
}
use local_gpu_cluster.AccessKeys.KeyLifetime.{issued, issued_key_works}
use local_gpu_cluster.AccessKeys.Revocation.{parse_entry-named}

abbrev digest_text : String
digest_text = "aaaaaaaaaaaaaaaaaaaaaaaaaaaaaaaaaaaaaaaaaaaaaaaaaaaaaaaaaaaaaaaa"

-- A SHA-256 of which every digest is the same, and one that never gives that digest.
abbrev same_digest : String → Codes
same_digest s = codes digest_text

abbrev other_digest : String → Codes
other_digest s = []

abbrev presented : String
presented = "key"

abbrev owner_key : String
owner_key = "boss"

not_owner : presented ≢ owner_key
not_owner h = ground (arith, eq_iff presented owner_key)

not_empty : presented ≢ ""
not_empty h = ground (arith, eq_iff presented "")

abbrev ann_item : Value
ann_item = new_entry "ann" digest_text ("chat" ∷ []) (pos 100)

abbrev ann : Principal
ann = record { name = "ann"; kind = scoped; aliases = "chat" ∷ []; expires = some (pos 100) }

abbrev ann_keys : Items
ann_keys = cons ann_item nil

abbrev ann_content : Content
ann_content = parsed (obj (field "keys" (arr ann_keys) end))

abbrev ann_file : KeysFile
ann_file = record { sig = record { inode = 1; mtime = 2; size = 3 }; content = ann_content }

-- The same with an expiry that no float can hold.
abbrev huge_item : Value
huge_item = obj (
    field "name" (str "ann") (
      field "sha256" (str digest_text) (
        field "aliases" (arr (cons (str "chat") nil))
          (field "expires" (int (pos (10 ^ 400))) end))))

abbrev huge_file : KeysFile
huge_file = record {
  sig = record { inode = 1; mtime = 3; size = 3 };
  content = parsed (obj (field "keys" (arr (cons huge_item nil)) end));
}

parses : parse_entry ann_item ≡ ok (codes digest_text, ann)
unfolding parse_entry item check_entry parse_name parse_sha256 parse_aliases parse_expires
    alias_items valid_name valid_sha256 get
parses = refl

loads : parse_content ann_content ≡ some ((codes digest_text, ann) ∷ [])
unfolding parse_content parse_entries parse_entry item check_entry parse_name parse_sha256
    parse_aliases parse_expires alias_items valid_name valid_sha256 get
loads = refl

-- The router has seen no file, and then this one.
abbrev earlier : List Request
earlier =
    record { file = none; now = pos 10; presented = presented }
    ∷ record { file = some ann_file; now = pos 20; presented = presented }
    ∷ []

earlier-IsTame : All (λ r. IsTame ann_file r.file) earlier
earlier-IsTame = (tt, ((λ e. absurd (cc (e, loads)), λ e. refl), tt))

abbrev warm_cache : Cache
warm_cache = serve same_digest owner_key earlier empty_cache

admits :
    (authenticate same_digest owner_key (some ann_file) (pos 50) presented warm_cache).1
    ≡ someone ann
unfolding authenticate reload_if_changed find_match parse_content parse_entries parse_entry item
    check_entry parse_name parse_sha256 parse_aliases parse_expires alias_items valid_name
    valid_sha256 get codes_eq
admits = refl

authenticate_sound_example :
    ((ann ≡ owner_principal) × (presented ≡ owner_key) × (presented ≢ ""))
    ⊎ (Any (ParsesTo (codes digest_text) ann) (file_entries ann_content)
        × IsUnexpired (pos 50) (some (pos 100)))
authenticate_sound_example =
    authenticate_sound same_digest owner_key ann_file earlier (pos 50) presented ann earlier-IsTame
      admits

revoked_at_once_example :
    (authenticate other_digest owner_key (some ann_file) (pos 50) presented empty_cache).1 ≡ nobody
unfolding codes_eq
revoked_at_once_example =
    revoked_at_once other_digest owner_key ann_file (pos 50) presented empty_cache
      ((codes digest_text, ann) ∷ []) refl loads (refl, tt) not_owner

-- The cache as it was loaded before the file changed.
abbrev old_cache : Cache
old_cache = record {
  sig = some (record { inode = 1; mtime = 2; size = 3 });
  entries = (codes digest_text, ann) ∷ [];
}

abbrev ann_request : HttpRequest
ann_request = record { method = "GET"; path = "/v1/models"; authorization = "Bearer key" }

forwards :
    (require_bearer same_digest owner_key (some ann_file) (pos 50) ann_request warm_cache).1
    ≡ forwarded ann
unfolding require_bearer is_exempt bearer_token drop_chars strip lower_starts_with scoped_endpoint
    authenticate reload_if_changed find_match parse_content parse_entries parse_entry item
    check_entry parse_name parse_sha256 parse_aliases parse_expires alias_items valid_name
    valid_sha256 get codes_eq endpoint_allowed
forwards = refl

forwarded_sound_example :
    (token : String) × (bearer_token ann_request ≡ some token)
    × (((ann ≡ owner_principal) × (token ≡ owner_key) × (token ≢ ""))
        ⊎ (Any (ParsesTo (same_digest token) ann) (file_entries ann_content)
            × IsUnexpired (pos 50) (some (pos 100))))
    × (ann.kind ≡ scoped → scoped_endpoint "GET" "/v1/models" ≡ true)
forwarded_sound_example =
    forwarded_sound same_digest owner_key ann_file earlier (pos 50) ann_request ann earlier-IsTame
      forwards

abbrev ann_body : Fields
ann_body = field "model" (str "chat") end

parse_entry-named_example : named "bob" ann_item ≡ some (str_eq "ann" "bob")
parse_entry-named_example = parse_entry-named ann_item (codes digest_text) ann "bob" parses

loads_items : parse_entries (to_list ann_keys) ≡ some ((codes digest_text, ann) ∷ [])
unfolding parse_entries parse_entry item check_entry parse_name parse_sha256 parse_aliases
    parse_expires alias_items valid_name valid_sha256 get
loads_items = refl

-- `router-keys add --name ann --aliases chat`, on no keys file yet, with one hour to live.
abbrev add_ann : Outcome
add_ann =
    cmd_add (λ s. digest_text) none (pos 0) presented false "ann" "chat"
      (finite (pos (3600 * 1000000)))

abbrev added_file : KeysFile
added_file = record {
  sig = record { inode = 1; mtime = 2; size = 3 };
  content = parsed (
      obj (
        field "keys" (arr (cons (new_entry "ann" digest_text ("chat" ∷ []) (pos 3600000000)) nil))
          end));
}

adds : (add_ann.status ≡ some 0) × (add_ann.file ≡ some added_file.content)
unfolding cmd_add load write_key any_named split_comma strip_words strip put
adds = (refl, refl)

issued_key_works_example :
    (authenticate same_digest owner_key (some added_file) (pos 9) presented empty_cache).1
    ≡ someone (issued "ann" (strip_words (split_comma "chat")) (pos 3600000000))
unfolding valid_sha256
issued_key_works_example =
    issued_key_works (λ s. digest_text) none (pos 0) presented false "ann" "chat"
      (finite (pos 3600000000)) owner_key [] added_file empty_cache (pos 9) (λ s. refl) adds.0
      adds.1 refl refl not_owner not_empty (omega arith)
