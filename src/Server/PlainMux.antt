-- ===== src/Server/PlainMux.antt =====
-- A router for which what is relied on of chi holds: routes to the letter, and else a parameter at the
-- end of a pattern.
use Prim.Native.Char.{code}
use text.Mathlib.TextLemmas.{cons-append, nil-append}
use k8s_container_service_pr.Base.{
  String, true, false, Option, none, some, List, [], ◌∷◌, ◌<>◌, ◌≡◌, refl, ap, ◌∙◌, if◌then◌else◌,
  eqb, arith,
}
use k8s_container_service_pr.Apiserver.Recovery.{returns, write_header}
use k8s_container_service_pr.Server.Routes.{Operation, Route, Mux}
use k8s_container_service_pr.Server.Answers.{
  MuxLaws, is_plain, is_segment, plain_route, param_routes,
}

-- The name before the closing brace.
abbrev name_of : String → String
name_of String.[] = ""
name_of (String.◌∷◌ c s) =
    let rest = String.◌∷◌ c (name_of s) in if eqb (code c) b'}' then "" else rest

abbrev last_segment : String → String → Option (List (String × String))
last_segment name s = if is_segment s then some ((name, s) ∷ []) else none

match_pattern : String → String → Option (List (String × String))
match_pattern String.[] String.[] = some []
match_pattern String.[] (String.◌∷◌ d t) = none
match_pattern (String.◌∷◌ c p) String.[] = none
match_pattern (String.◌∷◌ c p) (String.◌∷◌ d t) =
    let rest = match_pattern p t in
    if eqb (code c) b'{'
    then last_segment (name_of p) (String.◌∷◌ d t)
    else if eqb (code c) (code d)
    then rest
    else none

abbrev with_operation :
    Operation → Option (List (String × String)) → Option (Operation × List (String × String))
with_operation o none = none
with_operation o (some params) = some (o, params)

abbrev first_match : List Route → String → Option (Operation × List (String × String))
first_match [] path = none
first_match (r ∷ rs) path = elim (match_pattern r.pattern path) [
  | some params ↦ some (r.operation, params)
  | none ↦ first_match rs path
]

pub find : List Route → String → String → Option (Operation × List (String × String))
unfolding match_pattern
find table method path = elim (plain_route table method path) [
  | some o ↦ some (o, [])
  | none ↦ first_match (param_routes table method) path
]

abbrev pub plain_mux : Mux
plain_mux = record {
  find = find;
  not_found = λ table r. record { calls = write_header 404 ∷ []; ending = returns };
}

name_of-append : (name : String) → is_plain name ≡ true → name_of (name <> "}") ≡ name
name_of-append String.[] h = refl
name_of-append (String.◌∷◌ c s) h = rw (cons-append c s "}") (ground (arith, name_of-append s))

at_slash : (s : String) → ("/" <> s) ≡ String.◌∷◌ "/" s
at_slash s = cons-append "/" "" s ∙ ap (String.◌∷◌ "/") (nil-append s)

at_brace : (s : String) → ("/{" <> s) ≡ String.◌∷◌ "/" (String.◌∷◌ "{" s)
at_brace s =
    cons-append "/" "{" s
    ∙ ap (String.◌∷◌ "/") (cons-append "{" "" s ∙ ap (String.◌∷◌ "{") (nil-append s))

match_segment :
    (name segment : String)
    → is_plain name ≡ true
    → is_segment segment ≡ true
    → match_pattern ("/{" <> (name <> "}")) ("/" <> segment) ≡ some ((name, segment) ∷ [])
unfolding match_pattern
match_segment name String.[] n s = absurd (false≢true s)
  where
    false≢true : false ≡ true → ⊥
    false≢true e = cc
match_segment name (String.◌∷◌ d t) n s =
    rw (at_brace (name <> "}"), at_slash (String.◌∷◌ d t), name_of-append name n, s)

match_pattern-append :
    (prefix name segment : String)
    → is_plain prefix ≡ true
    → is_plain name ≡ true
    → is_segment segment ≡ true
    → match_pattern (prefix <> ("/{" <> (name <> "}"))) (prefix <> ("/" <> segment))
      ≡ some ((name, segment) ∷ [])
unfolding match_pattern
match_pattern-append String.[] name segment p n s =
    rw (nil-append ("/{" <> (name <> "}")), nil-append ("/" <> segment))
      (match_segment name segment n s)
match_pattern-append (String.◌∷◌ c prefix) name segment p n s =
    rw (cons-append c prefix ("/{" <> (name <> "}")), cons-append c prefix ("/" <> segment))
      (ground (arith, match_pattern-append prefix name segment))

find-plain :
    (table : List Route) (method path : String) (o : Operation)
    → plain_route table method path ≡ some o
    → find table method path ≡ some (o, [])
unfolding find
find-plain table method path o h = rw (find, h)

find-param :
    (table : List Route) (method prefix name segment : String) (o : Operation)
    → param_routes table method
      ≡ record { method = method; pattern = prefix <> ("/{" <> (name <> "}")); operation = o } ∷ []
    → is_plain prefix ≡ true
    → is_plain name ≡ true
    → is_segment segment ≡ true
    → plain_route table method (prefix <> ("/" <> segment)) ≡ none
    → find table method (prefix <> ("/" <> segment)) ≡ some (o, (name, segment) ∷ [])
unfolding find
find-param table method prefix name segment o one p n s other =
    rw (find, other, one, first_match, match_pattern-append prefix name segment p n s)

pub plain_mux-MuxLaws : MuxLaws plain_mux
plain_mux-MuxLaws = record { plain = find-plain; param = find-param }
