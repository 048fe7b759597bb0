-- ===== src/Query/Proto/Examples.antt =====
-- Test runs of the conversion of queries to messages.
use zoekt.Prelude.{ℕ, true, false, List, [], ◌∷◌, some, ◌≡◌, refl, ◌↔◌, arith}
use zoekt.Outcome.{ok, panic}
use zoekt.Query.Constants.{is_empty_list}
use zoekt.Query.Syntax.{
  External, Q, atom, const, and, not, type, nil, cons, SubstringQuery, substring, branch, language,
  file_name_set, raw_config, repo, meta,
}
use zoekt.Query.Proto.Messages.{Message, Proto, unset, only_forks, no_archived}
use zoekt.Query.Proto.{Codec, done, panics, q_to_proto, q_from_proto}
use zoekt.Query.Proto.RoundTrip.{IsPortable, q_from_proto-q_to_proto}
use zoekt.Query.Proto.Panics.{has_meta, q_to_proto-has_meta}

-- Expressions and bitmaps that are their own texts and bytes.
abbrev texts : External
texts = record {
  Regex = List ℕ;
  is_empty_match = is_empty_list;
  Compiled = List ℕ;
  Bitmap = List ℕ;
  is_empty = is_empty_list;
  Float = ℕ;
}

abbrev as_they_are : Codec texts
as_they_are = record {
  regex_string = λ r. r;
  parse_regex = some;
  compiled_string = λ r. r;
  compile = some;
  to_bytes = some;
  unmarshal_binary = some;
}

abbrev in_names : SubstringQuery
in_names = record { pattern = 5 ∷ 6 ∷ []; case_sensitive = true; file_name = true; content = false }

-- and(rawConfig, not(file name set), type:repo(repo), file:substring, branch, language)
abbrev query : Q texts
query = and (
    cons (atom (raw_config 36)) (
      cons (not (atom (file_name_set ((1 ∷ []) ∷ (2 ∷ []) ∷ [])))) (
        cons (type (atom (repo (7 ∷ []))) 2) (
          cons (atom (substring in_names))
            (cons (atom (branch (8 ∷ []) true)) (cons (atom (language (9 ∷ []))) nil))))))

abbrev with_meta : Q texts
with_meta = and (cons (const true) (cons (not (atom (meta (1 ∷ []) (2 ∷ [])))) nil))

flags_of_raw_config :
    q_to_proto as_they_are (atom (raw_config 36))
    ≡ ok (Proto.message (Message.raw_config (only_forks ∷ no_archived ∷ [])))
unfolding q_to_proto
flags_of_raw_config = refl

-- A message may hold what a query is not converted to.
meta_message :
    q_from_proto as_they_are (Proto.message (Message.meta (1 ∷ []) (2 ∷ [])))
    ≡ done (atom (meta (1 ∷ []) (2 ∷ [])))
unfolding q_from_proto
meta_message = refl

missing_child : q_from_proto as_they_are (Proto.not unset) ≡ panics
unfolding q_from_proto
missing_child = refl

q_from_proto-q_to_proto_example :
    (p : Proto texts) × (q_to_proto as_they_are query ≡ ok p)
    × (q_from_proto as_they_are p ≡ done query)
unfolding IsPortable
q_from_proto-q_to_proto_example =
    q_from_proto-q_to_proto as_they_are query
      (omega arith, (((refl, tt), (tt, tt)), ((refl, omega arith), (tt, (tt, (tt, tt))))))

q_to_proto-has_meta_example :
    ((q_to_proto as_they_are with_meta ≡ panic) ↔ (has_meta with_meta ≡ true))
    × (has_meta with_meta ≡ false → (p : Proto texts) × (q_to_proto as_they_are with_meta ≡ ok p))
q_to_proto-has_meta_example = q_to_proto-has_meta as_they_are (λ b. (b, refl)) with_meta
