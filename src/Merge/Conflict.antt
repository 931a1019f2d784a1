-- ===== src/Merge/Conflict.antt =====
-- When a merge is in conflict, and what a file in conflict holds.
use wkp.Base.{||-elim, ◌≡◌, refl, ◌≢◌, ◌↔◌, ◌⊎◌, inl, inr, true, ◌++◌, arith}
use wkp.Str.{Text, codes, trim_end}
use wkp.Str.Laws.{text_eq_iff}
use wkp.Frontmatter.Types.{Frontmatter}
use wkp.Frontmatter.Parse.{parse}
use wkp.Base.Equality.{option_eq}
use wkp.Merge.Scalars.{
  text_equality, item_type_equality, scope_equality, visibility_equality, confidence_equality,
}
use wkp.Merge.Scalars.{resolve_scalar_conflict}
use wkp.Merge.Defs.{merge_frontmatter, body_conflict, in_conflict, conflict_marker}

-- Both sides changed the base, to different values.
abbrev pub Diverges {ℓ} : {A : Type ℓ} → A → A → A → Type ℓ
Diverges base ours theirs = (ours ≢ theirs) × (ours ≢ base) × (theirs ≢ base)

-- The seven scalars that the merge compares.
pub data ScalarsDiverge (b o t : Frontmatter) : Type 0 where
  title : Diverges b.title o.title t.title → ScalarsDiverge b o t
  item_type : Diverges b.item_type o.item_type t.item_type → ScalarsDiverge b o t
  scope : Diverges b.scope o.scope t.scope → ScalarsDiverge b o t
  workspace : Diverges b.workspace o.workspace t.workspace → ScalarsDiverge b o t
  visibility : Diverges b.visibility o.visibility t.visibility → ScalarsDiverge b o t
  confidence : Diverges b.confidence o.confidence t.confidence → ScalarsDiverge b o t
  expires : Diverges b.expires o.expires t.expires → ScalarsDiverge b o t

merge_frontmatter_conflict :
    (b o t : Frontmatter) → (merge_frontmatter b o t).1 ≡ true → ScalarsDiverge b o t
unfolding merge_frontmatter
merge_frontmatter_conflict b o t h = elim (||-elim _ _ h) [
  | inl e ↦ title ((resolve_scalar_conflict o.title b.title o.title t.title).0 e)
  | inr h ↦ elim (||-elim _ _ h) [
    | inl e ↦
        item_type ((resolve_scalar_conflict o.item_type b.item_type o.item_type t.item_type).0 e)
    | inr h ↦ elim (||-elim _ _ h) [
      | inl e ↦ scope ((resolve_scalar_conflict o.scope b.scope o.scope t.scope).0 e)
      | inr h ↦ elim (||-elim _ _ h) [
        | inl e ↦
            workspace
              ((resolve_scalar_conflict o.workspace b.workspace o.workspace t.workspace).0 e)
        | inr h ↦ elim (||-elim _ _ h) [
          | inl e ↦
              visibility
                ((resolve_scalar_conflict o.visibility b.visibility o.visibility t.visibility).0 e)
          | inr h ↦ elim (||-elim _ _ h) [
            | inl e ↦
                confidence (
                  (resolve_scalar_conflict o.confidence b.confidence o.confidence t.confidence).0 e)
            | inr e ↦
                expires ((resolve_scalar_conflict o.expires b.expires o.expires t.expires).0 e)
          ]
        ]
      ]
    ]
  ]
]

merge_frontmatter-ScalarsDiverge :
    (b o t : Frontmatter) → ScalarsDiverge b o t → (merge_frontmatter b o t).1 ≡ true
unfolding merge_frontmatter
merge_frontmatter-ScalarsDiverge b o t (title d) =
    ground (arith, (resolve_scalar_conflict o.title b.title o.title t.title).1 d)
merge_frontmatter-ScalarsDiverge b o t (item_type d) =
    ground (arith, (resolve_scalar_conflict o.item_type b.item_type o.item_type t.item_type).1 d)
merge_frontmatter-ScalarsDiverge b o t (scope d) =
    ground (arith, (resolve_scalar_conflict o.scope b.scope o.scope t.scope).1 d)
merge_frontmatter-ScalarsDiverge b o t (workspace d) =
    ground (arith, (resolve_scalar_conflict o.workspace b.workspace o.workspace t.workspace).1 d)
merge_frontmatter-ScalarsDiverge b o t (visibility d) =
    ground
      (arith, (resolve_scalar_conflict o.visibility b.visibility o.visibility t.visibility).1 d)
merge_frontmatter-ScalarsDiverge b o t (confidence d) =
    ground
      (arith, (resolve_scalar_conflict o.confidence b.confidence o.confidence t.confidence).1 d)
merge_frontmatter-ScalarsDiverge b o t (expires d) =
    ground (arith, (resolve_scalar_conflict o.expires b.expires o.expires t.expires).1 d)

body_conflict_iff :
    (base ours theirs : Text) → (body_conflict base ours theirs ≡ true) ↔ Diverges base ours theirs
unfolding body_conflict
body_conflict_iff base ours theirs =
    ground (arith, text_eq_iff ours base, text_eq_iff theirs base, text_eq_iff ours theirs)

-- A merge is in conflict exactly when one of the seven scalars, or the body, was changed on both
-- sides to different values.
pub in_conflict_iff :
    (base ours theirs : Text)
    → (in_conflict base ours theirs ≡ true) ↔ (
        ScalarsDiverge (parse base).frontmatter (parse ours).frontmatter (parse theirs).frontmatter
        ⊎ Diverges (parse base).body (parse ours).body (parse theirs).body)
unfolding in_conflict
in_conflict_iff base ours theirs =
    let (b, o, t) : Text × Text × Text = (base, ours, theirs) in
    (
      λ h. elim (||-elim _ _ h) [
        | inl e ↦ inl (merge_frontmatter_conflict _ _ _ e)
        | inr e ↦ inr ((body_conflict_iff _ _ _).0 e)
      ],
      λ h. elim h [
        | inl d ↦ rw (merge_frontmatter-ScalarsDiverge _ _ _ d) refl
        | inr d ↦
            ground (
              arith,
              (body_conflict_iff (parse base).body (parse ours).body (parse theirs).body).1 d,
            )
      ],
    )

-- A scalar or the body was changed on both sides to different values.
abbrev pub AreApart : Text → Text → Text → Type 0
AreApart base ours theirs =
    ScalarsDiverge (parse base).frontmatter (parse ours).frontmatter (parse theirs).frontmatter
    ⊎ Diverges (parse base).body (parse ours).body (parse theirs).body

abbrev pub IsMarked : Text → Type 0
IsMarked file = (rest : Text) × (file ≡ conflict_marker ++ rest)

-- The marker and, below it, the two versions but for the white space at their ends, ours first.
abbrev pub HasBoth : Text → Text → Text → Type 0
HasBoth ours theirs file =
    (notice : Text) × (between : Text) × (file
      ≡ conflict_marker
        ++ (notice ++ (trim_end ours ++ (between ++ (trim_end theirs ++ codes "\n")))))
