-- ===== src/TypeMap/Aliases.antt =====
-- Loading typemap.txt: what stays and what is added.
use fans.Base.{ℕ, ◌≡◌, List, [], ◌∷◌, none, some, arith, inl, inr, Option-cases}
use fans.Base.Text.{Text, text_eq_iff}
use fans.Base.Map.{Map, get, get-put}
use fans.VarType.{VarType}
use fans.TypeMap.{add_alias, add_line, before_plus, under_of, load_type_map}

add_alias_keeps :
    (type under t : Text) (m : Map VarType) (v : VarType)
    → get t m ≡ some v
    → get t (add_alias type under m) ≡ some v
unfolding add_alias
add_alias_keeps type under t m v h = elim (Option-cases (get type m)) [
  | inr (w, e) ↦ rw (e, add_alias) h
  | inl e ↦ elim (Option-cases (get under m)) [
    | inl u ↦ rw (e, add_alias) (rw (u, add_alias) h)
    | inr (w, u) ↦
        rw (e, add_alias)
          (rw (u, add_alias) (ground (arith, get-put type t w m, text_eq_iff type t)))
  ]
]

add_line_keeps :
    (line t : Text) (m : Map VarType) (v : VarType)
    → get t m ≡ some v
    → get t (add_line line m) ≡ some v
add_line_keeps [] t m v h = h
add_line_keeps (c ∷ s) t m v h = add_alias_keeps _ _ t m v h

-- A type that is recorded keeps its VarType, whatever lines of the type map follow.
pub load_type_map_keeps :
    (lines : List Text) (t : Text) (m : Map VarType) (v : VarType)
    → get t m ≡ some v
    → get t (load_type_map lines m) ≡ some v
unfolding load_type_map
load_type_map_keeps [] t m v h = h
load_type_map_keeps (line ∷ lines) t m v h =
    load_type_map_keeps lines t (add_line line m) v (add_line_keeps line t m v h)

-- A type that is not recorded when its line is read gets the VarType of the type that the line
-- declares it over, if that one is recorded then, and keeps it to the end of the load.
pub load_type_map_alias :
    (c : ℕ) (s : Text) (lines : List Text) (m : Map VarType) (v : VarType)
    → get (before_plus (c ∷ s)) m ≡ none
    → get (under_of (c ∷ s)) m ≡ some v
    → get (before_plus (c ∷ s)) (load_type_map ((c ∷ s) ∷ lines) m) ≡ some v
unfolding load_type_map add_alias
load_type_map_alias c s lines m v fresh known = load_type_map_keeps lines _ _ v (
    rw (fresh, add_alias)
      (rw (known, add_alias)
        (ground (
          arith,
          get-put (before_plus (c ∷ s)) (before_plus (c ∷ s)) v m,
          text_eq_iff (before_plus (c ∷ s)) (before_plus (c ∷ s)),
        ))))
