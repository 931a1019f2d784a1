-- ===== src/Graph/Paths.antt =====
-- `normalize_ref` and `normalize_path` of graph.rs, on the components of a path.
pub mod Resolve
pub mod Refs
use wkp.Base.{
  ℕ, zero, suc, ◌+◌, ◌-◌, ◌*◌, ◌/◌, ◌%◌, ◌^◌, ◌≤◌, ◌<◌, min, max, String, ◌≡◌, refl, sym, ap, ap₂,
  ◌∙◌, subst, ◌≡⟨◌⟩◌, ◌∎, ◌≢◌, ◌↔◌, ◌⊎◌, inl, inr, Bool, true, false, not, ◌&&◌, ◌||◌, Option, none,
  some, List, [], ◌∷◌, ◌++◌, map, append-nil, append_assoc, arith, ltb, leb, ◌==◌, if◌then◌else◌,
  ==_iff, Bool-cases, Option-cases, &&-elim, length, take, drop, flatten, filter, take_while, all,
  any, is_empty, length-append, take-append, drop-append, filter_map, or_else, is_some, map_option,
  ◌>>=◌, all-append, drop_past, push_some,
}
use wkp.Str.{Text, codes, split_by, join, text_eq, strip_prefix}

-- `Path::components`: the root, and the other components. A `.` is left out, since nothing here
-- depends on one.
pub record FilePath : Type 0 where
  pub root : Bool
  pub parts : List Text

abbrev pub is_slash : ℕ → Bool
is_slash c = c == b'/'

abbrev pub is_component : Text → Bool
is_component part = not (is_empty part) && not (text_eq part (codes "."))

abbrev pub has_root : Text → Bool
has_root [] = false
has_root (c ∷ cs) = is_slash c

unfoldable pub components : Text → FilePath
components t = record { root = has_root t; parts = filter is_component (split_by is_slash t) }

abbrev pub without_last : List Text → List Text
without_last [] = []
without_last (x ∷ []) = []
without_last (x ∷ y ∷ ys) = x ∷ without_last (y ∷ ys)

-- `parent`, or the empty path where there is none
abbrev pub parent : FilePath → FilePath
parent p = record { root = p.root && not (is_empty p.parts); parts = without_last p.parts }

-- `Path::join`
abbrev pub join_path : FilePath → FilePath → FilePath
join_path dir p = if p.root then p else record { root = dir.root; parts = dir.parts ++ p.parts }

-- One component of the loop of `normalize_path`; `out` has its last component first.
abbrev pub pop_or_push : List Text → List Text
pop_or_push [] = codes ".." ∷ []
pop_or_push (x ∷ xs) = xs

unfoldable pub climb : List Text → List Text → List Text
climb out [] = out
climb out (part ∷ parts) =
    climb (if text_eq part (codes "..") then pop_or_push out else part ∷ out) parts

abbrev pub reverse_onto {ℓ} : {A : Type ℓ} → List A → List A → List A
reverse_onto [] ys = ys
reverse_onto (x ∷ xs) ys = reverse_onto xs (x ∷ ys)

unfoldable pub normalize_path : FilePath → FilePath
unfolding climb
normalize_path p = record { root = p.root; parts = reverse_onto (climb [] p.parts) [] }

-- `to_string_lossy().replace('\\', "/")`
unfoldable pub show_path : FilePath → Text
show_path p =
    map (λ c. if c == b'\\' then b'/' else c)
      (if p.root then b'/' ∷ join (codes "/") p.parts else join (codes "/") p.parts)

abbrev pub escapes : Text → Bool
escapes t = text_eq t (codes "..") || is_some (strip_prefix (codes "../") t)

-- The reference of a file at one path to another.
unfoldable pub ref_between : FilePath → FilePath → Option Text
unfolding normalize_path show_path
ref_between source raw =
    let normalized = show_path (normalize_path (join_path (parent source) raw)) in
    if escapes normalized then none else some normalized

unfoldable pub normalize_ref : Text → Text → Option Text
unfolding components ref_between
normalize_ref source_path raw_ref = ref_between (components source_path) (components raw_ref)
