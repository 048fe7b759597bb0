-- ===== src/Query/Proto/Messages.antt =====
-- The messages that stand for queries (query.proto in grpc/protos/zoekt/webserver/v1).
use zoekt.Prelude.{ℕ, Bool, List}
use zoekt.Query.Syntax.{External, Text}

pub data Flag : Type 0 where
  unknown_flag : Flag
  only_public : Flag
  only_private : Flag
  only_forks : Flag
  no_forks : Flag
  only_archived : Flag
  no_archived : Flag

pub data Kind : Type 0 where
  unknown_kind : Kind
  file_match : Kind
  file_name : Kind
  repo_kind : Kind

pub record RegexpMessage : Type 0 where
  pub regexp : Text
  pub file_name : Bool
  pub content : Bool
  pub case_sensitive : Bool

pub record SubstringMessage : Type 0 where
  pub pattern : Text
  pub case_sensitive : Bool
  pub file_name : Bool
  pub content : Bool

pub record BranchMessage : Type 0 where
  pub pattern : Text
  pub exact : Bool

pub record LanguageMessage : Type 0 where
  pub language : Text

-- The messages without a child.
pub data Message : Type 0 where
  raw_config : List Flag → Message
  regexp : RegexpMessage → Message
  language : LanguageMessage → Message
  repo : Text → Message
  repo_regexp : Text → Message
  branches_repos : List (Text × List ℕ) → Message
  repo_ids : List ℕ → Message
  repo_set : List (Text × Bool) → Message
  file_name_set : List Text → Message
  substring : SubstringMessage → Message
  branch : BranchMessage → Message
  meta : Text → Text → Message

-- `webserverv1.Q`; `unset` is a message in which no query is set, and a message that is missing.
mutual
  pub data Proto (E : External) : Type 0 where
    unset : Proto E
    const : Bool → Proto E
    message : Message → Proto E
    symbol : Proto E → Proto E
    and : Protos E → Proto E
    or : Protos E → Proto E
    not : Proto E → Proto E
    type : Proto E → Kind → Proto E
    boost : Proto E → E.Float → Proto E

  pub data Protos (E : External) : Type 0 where
    nil : Protos E
    cons : Proto E → Protos E → Protos E
