-- ===== src/Query/Proto/Sets.antt =====
-- Sets of file names, there and back.
use zoekt.Prelude.{
  false, List, [], ◌∷◌, ◌++◌, All, append_assoc, if_false, ◌≡◌, refl, sym, ap, append-nil, ◌∙◌,
}
use zoekt.MatchTree.Content.{bytes_equal}
use zoekt.Query.Syntax.{Text}
use zoekt.Query.Proto.{set_key, file_name_set_from}

abbrev Lacks : List Text → Text → Type 0
Lacks m name = All (λ n. bytes_equal n name ≡ false) m

-- No name stands twice.
abbrev pub IsDistinct : List Text → Type 0
IsDistinct [] = Unit {0}
IsDistinct (n ∷ ns) = All (λ name. bytes_equal n name ≡ false) ns × IsDistinct ns

set_key-Lacks : (name : Text) (m : List Text) → Lacks m name → set_key name m ≡ m ++ name ∷ []
set_key-Lacks name [] h = refl
set_key-Lacks name (n ∷ ns) h =
    if_false (bytes_equal n name) (n ∷ ns) _ h.0 ∙ ap (λ l. n ∷ l) (set_key-Lacks name ns h.1)

Lacks-snoc :
    (m : List Text) (n name : Text)
    → Lacks m name
    → bytes_equal n name ≡ false
    → Lacks (m ++ n ∷ []) name
Lacks-snoc [] n name h e = (e, tt)
Lacks-snoc (x ∷ xs) n name h e = (h.0, Lacks-snoc xs n name h.1 e)

All-Lacks-snoc :
    (m : List Text) (n : Text) (names : List Text)
    → All (Lacks m) names
    → All (λ name. bytes_equal n name ≡ false) names
    → All (Lacks (m ++ n ∷ [])) names
All-Lacks-snoc m n [] h d = tt
All-Lacks-snoc m n (x ∷ xs) h d = (Lacks-snoc m n x h.0 d.0, All-Lacks-snoc m n xs h.1 d.1)

file_name_set_from-append :
    (names m : List Text)
    → All (Lacks m) names
    → IsDistinct names
    → file_name_set_from names m ≡ m ++ names
file_name_set_from-append [] m h d = sym (append-nil m)
file_name_set_from-append (n ∷ ns) m h d =
    ap (file_name_set_from ns) (set_key-Lacks n m h.0)
    ∙ file_name_set_from-append ns (m ++ n ∷ []) (All-Lacks-snoc m n ns h.1 d.0) d.1
    ∙ append_assoc m (n ∷ []) ns

All-Lacks-nil : (names : List Text) → All (Lacks []) names
All-Lacks-nil [] = tt
All-Lacks-nil (n ∷ ns) = (tt, All-Lacks-nil ns)

pub file_name_set_from-IsDistinct :
    (names : List Text) → IsDistinct names → file_name_set_from names [] ≡ names
file_name_set_from-IsDistinct names d = file_name_set_from-append names [] (All-Lacks-nil names) d
