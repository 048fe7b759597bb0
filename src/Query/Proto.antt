-- ===== src/Query/Proto.antt =====
-- query/query_proto.go: query trees as the messages of grpc/protos/zoekt/webserver/v1/query.proto,
-- and back. The packages for regular expressions and bitmaps are arguments.
pub mod Messages
pub mod Flags
pub mod Sets
pub mod RoundTrip
pub mod Panics
mod Examples
use zoekt.Prelude.{
  ℕ, ◌==◌, ◌&&◌, ◌||◌, if◌then◌else◌, Bool, true, false, List, [], ◌∷◌, ◌++◌, Option, none, some,
}
use Prim.Native.Nat.{bit_and, bit_or}
use zoekt.Outcome.{Outcome, ok, panic, ◌>>=◌}
use zoekt.MatchTree.Content.{bytes_equal}
use zoekt.Query.Syntax.{
  External, Text, SubstringQuery, RegexpQuery, Atom, substring, regexp, branch, branches_repos,
  repo_ids, repo_set, file_name_set, raw_config, language, repo, repo_regexp, meta, case_q, Q,
  const, atom, symbol, and, or, not, type, boost, Children, nil, cons,
}
use zoekt.Query.Proto.Messages.{
  Flag, unknown_flag, only_public, only_private, only_forks, no_forks, only_archived, no_archived,
  Kind, unknown_kind, file_match, file_name, repo_kind, RegexpMessage, SubstringMessage,
  BranchMessage, LanguageMessage, Message, Proto, unset, Protos,
}

-- `String` and the parser of a regular expression, of both packages, and the bytes of a bitmap.
-- `none` is an error.
pub record Codec (E : External) : Type 0 where
  pub regex_string : E.Regex → Text
  pub parse_regex : Text → Option E.Regex
  pub compiled_string : E.Compiled → Text
  pub compile : Text → Option E.Compiled
  pub to_bytes : E.Bitmap → Option (List ℕ)
  pub unmarshal_binary : List ℕ → Option E.Bitmap

-- What a conversion from a message ends with.
pub data Result {ℓ} (A : Type ℓ) : Type ℓ where
  done : A → Result A
  fails : Result A
  panics : Result A

abbrev pub bind {ℓ κ} : {A : Type ℓ} {B : Type κ} → Result A → (A → Result B) → Result B
bind (done a) f = f a
bind fails f = fails
bind panics f = panics

-- `if err != nil { return nil, err }`
abbrev pub or_fail {ℓ κ} : {A : Type ℓ} {B : Type κ} → Option A → (A → B) → Result B
or_fail none f = fails
or_fail (some a) f = done (f a)

-- `flagNames` with the flags of the messages.
abbrev pub flag_names : List (ℕ × Flag)
flag_names =
    (1, only_public)
    ∷ (2, only_private)
    ∷ (4, only_forks)
    ∷ (8, no_forks)
    ∷ (16, only_archived)
    ∷ (32, no_archived)
    ∷ []

-- `RawConfig.ToProto`
abbrev pub flags_of : List (ℕ × Flag) → ℕ → List Flag
flags_of [] r = []
flags_of ((mask, flag) ∷ names) r =
    if bit_and r mask == 0 then flags_of names r else flag ∷ flags_of names r

abbrev pub mask_of : Flag → ℕ
mask_of unknown_flag = 0
mask_of only_public = 1
mask_of only_private = 2
mask_of only_forks = 4
mask_of no_forks = 8
mask_of only_archived = 16
mask_of no_archived = 32

-- The loop of `RawConfigFromProto`.
abbrev pub raw_config_from : List Flag → ℕ → ℕ
raw_config_from [] res = res
raw_config_from (f ∷ fs) res = raw_config_from fs (bit_or res (mask_of f))

abbrev pub kind_of : ℕ → Kind
kind_of t =
    if t == 0
    then file_match
    else if t == 1
    then file_name
    else if t == 2
    then repo_kind
    else unknown_kind

-- `kind` is 0 where no case sets it.
abbrev pub type_of : Kind → ℕ
type_of unknown_kind = 0
type_of file_match = 0
type_of file_name = 1
type_of repo_kind = 2

abbrev pub or_panic {ℓ} : {A : Type ℓ} → Option A → Outcome A
or_panic none = panic
or_panic (some a) = ok a

-- A map is the list of its keys, each once, in the order in which a loop finds them.
abbrev pub set_key : Text → List Text → List Text
set_key name [] = name ∷ []
set_key name (n ∷ ns) = if bytes_equal n name then n ∷ ns else n ∷ set_key name ns

abbrev pub file_name_set_from : List Text → List Text → List Text
file_name_set_from [] m = m
file_name_set_from (name ∷ names) m = file_name_set_from names (set_key name m)

-- `Substring.ToProto` and `SubstringFromProto`
unfoldable pub substring_to : SubstringQuery → SubstringMessage
substring_to q = record {
  pattern = q.pattern;
  case_sensitive = q.case_sensitive;
  file_name = q.file_name;
  content = q.content;
}

unfoldable pub substring_from : SubstringMessage → SubstringQuery
substring_from p = record {
  pattern = p.pattern;
  case_sensitive = p.case_sensitive;
  file_name = p.file_name;
  content = p.content;
}

-- `Branch.ToProto` and `BranchFromProto`
unfoldable pub branch_to : Text → Bool → BranchMessage
branch_to pattern exact = record { pattern = pattern; exact = exact }

unfoldable pub branch_from : {E : External} → BranchMessage → Atom E
branch_from p = branch p.pattern p.exact

-- `Language.ToProto` and `LanguageFromProto`
unfoldable pub language_to : Text → LanguageMessage
language_to l = record { language = l }

unfoldable pub language_from : {E : External} → LanguageMessage → Atom E
language_from p = language p.language

module _ {E : External} (c : Codec E) where
  -- `Repos.ToBytes`, with the panic on its error.
  abbrev pub bytes_of : E.Bitmap → Outcome (List ℕ)
  bytes_of b = or_panic (c.to_bytes b)

  -- The other methods `ToProto` of nodes without a child.
  abbrev pub regexp_to : RegexpQuery E → RegexpMessage
  regexp_to r = record {
    regexp = c.regex_string r.regexp;
    file_name = r.file_name;
    content = r.content;
    case_sensitive = r.case_sensitive;
  }

  abbrev pub repo_to : E.Compiled → Message
  repo_to r = Message.repo (c.compiled_string r)

  abbrev pub repo_regexp_to : E.Compiled → Message
  repo_regexp_to r = Message.repo_regexp (c.compiled_string r)

  abbrev pub repo_ids_to : E.Bitmap → Outcome Message
  repo_ids_to b = bytes_of b >>= λ bytes. ok (Message.repo_ids bytes)

  abbrev pub branch_repos_to : Text × E.Bitmap → Outcome (Text × List ℕ)
  branch_repos_to br = bytes_of br.1 >>= λ bytes. ok (br.0, bytes)

  unfoldable pub branches_to : List (Text × E.Bitmap) → Outcome (List (Text × List ℕ))
  branches_to [] = ok []
  branches_to (br ∷ brs) = do x ← branch_repos_to br; rest ← branches_to brs; ok (x ∷ rest)

  -- `QToProto` of a node without a child. `Meta` and `caseQ` have no case there.
  unfoldable pub atom_to_proto : Atom E → Outcome Message
  unfolding branches_to substring_to branch_to language_to
  atom_to_proto (substring s) = ok (Message.substring (substring_to s))
  atom_to_proto (regexp r) = ok (Message.regexp (regexp_to r))
  atom_to_proto (branch pattern exact) = ok (Message.branch (branch_to pattern exact))
  atom_to_proto (branches_repos bs) = branches_to bs >>= λ l. ok (Message.branches_repos l)
  atom_to_proto (repo_ids b) = repo_ids_to b
  atom_to_proto (repo_set s) = ok (Message.repo_set s)
  atom_to_proto (file_name_set s) = ok (Message.file_name_set s)
  atom_to_proto (raw_config r) = ok (Message.raw_config (flags_of flag_names r))
  atom_to_proto (language l) = ok (Message.language (language_to l))
  atom_to_proto (repo r) = ok (repo_to r)
  atom_to_proto (repo_regexp r) = ok (repo_regexp_to r)
  atom_to_proto (meta field value) = panic
  atom_to_proto (case_q flavor) = panic

  unfoldable mutual
    unfolding atom_to_proto

    -- `QToProto` and the methods `ToProto`.
    pub q_to_proto : Q E → Outcome (Proto E)
    q_to_proto (const b) = ok (Proto.const b)
    q_to_proto (atom a) = atom_to_proto a >>= λ m. ok (Proto.message m)
    q_to_proto (symbol q) = q_to_proto q >>= λ p. ok (Proto.symbol p)
    q_to_proto (and cs) = q_to_proto_list cs >>= λ ps. ok (Proto.and ps)
    q_to_proto (or cs) = q_to_proto_list cs >>= λ ps. ok (Proto.or ps)
    q_to_proto (not q) = q_to_proto q >>= λ p. ok (Proto.not p)
    q_to_proto (type q t) = q_to_proto q >>= λ p. ok (Proto.type p (kind_of t))
    q_to_proto (boost q f) = q_to_proto q >>= λ p. ok (Proto.boost p f)

    pub q_to_proto_list : Children E → Outcome (Protos E)
    q_to_proto_list nil = ok Protos.nil
    q_to_proto_list (cons q cs) =
        q_to_proto q >>= λ p. q_to_proto_list cs >>= λ ps. ok (Protos.cons p ps)

  -- The other functions for messages without a child.
  abbrev pub regexp_from : RegexpMessage → Result (Atom E)
  regexp_from r = or_fail (c.parse_regex r.regexp) (λ re. regexp (record {
    regexp = re;
    file_name = r.file_name;
    content = r.content;
    case_sensitive = r.case_sensitive;
  }))

  abbrev pub repo_from : Text → Result (Atom E)
  repo_from t = or_fail (c.compile t) repo

  abbrev pub repo_regexp_from : Text → Result (Atom E)
  repo_regexp_from t = or_fail (c.compile t) repo_regexp

  abbrev pub meta_from : Text → Text → Result (Atom E)
  meta_from key value = or_fail (c.compile value) (meta key)

  abbrev pub repo_ids_from : List ℕ → Result (Atom E)
  repo_ids_from bytes = or_fail (c.unmarshal_binary bytes) repo_ids

  abbrev pub branch_repos_from : Text × List ℕ → Result (Text × E.Bitmap)
  branch_repos_from br = or_fail (c.unmarshal_binary br.1) (λ b. (br.0, b))

  unfoldable pub branches_from : List (Text × List ℕ) → Result (List (Text × E.Bitmap))
  branches_from [] = done []
  branches_from (br ∷ l) =
      bind (branch_repos_from br) (λ x. bind (branches_from l) (λ xs. done (x ∷ xs)))

  -- `QFromProto` of a message without a child.
  unfoldable pub message_from_proto : Message → Result (Atom E)
  unfolding branches_from substring_from branch_from language_from
  message_from_proto (Message.raw_config fs) = done (raw_config (raw_config_from fs 0))
  message_from_proto (Message.regexp r) = regexp_from r
  message_from_proto (Message.language l) = done (language_from l)
  message_from_proto (Message.repo t) = repo_from t
  message_from_proto (Message.repo_regexp t) = repo_regexp_from t
  message_from_proto (Message.branches_repos l) =
      bind (branches_from l) (λ bs. done (branches_repos bs))
  message_from_proto (Message.repo_ids bytes) = repo_ids_from bytes
  message_from_proto (Message.repo_set s) = done (repo_set s)
  message_from_proto (Message.file_name_set s) = done (file_name_set (file_name_set_from s []))
  message_from_proto (Message.substring s) = done (substring (substring_from s))
  message_from_proto (Message.branch b) = done (branch_from b)
  message_from_proto (Message.meta key value) = meta_from key value

  unfoldable mutual
    unfolding message_from_proto

    -- `QFromProto` and the functions for the messages with children.
    pub q_from_proto : Proto E → Result (Q E)
    q_from_proto unset = panics
    q_from_proto (Proto.const b) = done (const b)
    q_from_proto (Proto.message m) = bind (message_from_proto m) (λ a. done (atom a))
    q_from_proto (Proto.symbol p) = bind (q_from_proto p) (λ q. done (symbol q))
    q_from_proto (Proto.and ps) = bind (q_from_proto_list ps) (λ cs. done (and cs))
    q_from_proto (Proto.or ps) = bind (q_from_proto_list ps) (λ cs. done (or cs))
    q_from_proto (Proto.not p) = bind (q_from_proto p) (λ q. done (not q))
    q_from_proto (Proto.type p k) = bind (q_from_proto p) (λ q. done (type q (type_of k)))
    q_from_proto (Proto.boost p f) = bind (q_from_proto p) (λ q. done (boost q f))

    pub q_from_proto_list : Protos E → Result (Children E)
    q_from_proto_list Protos.nil = done nil
    q_from_proto_list (Protos.cons p ps) =
        bind (q_from_proto p) (λ q. bind (q_from_proto_list ps) (λ cs. done (cons q cs)))
