-- ===== src/Attendance/Recording/Mapping.antt =====
-- Whom the map of ids leads to (apps/api/src/modules/attendance/attendance.service.ts).
use edu_lanka.Prelude.{
  String, ◌≡◌, refl, sym, ◌∙◌, ◌⊎◌, inl, inr, Bool, true, false, ◌&&◌, some, List, [], ◌∷◌, In,
  Bool-cases, Option-cases, str_eq, str_eq_iff, if◌then◌else◌,
}
use edu_lanka.JsMap.{JsMap, get, set, get-set}
use edu_lanka.Attendance.{given}
use edu_lanka.Attendance.Recording.{RecordItem, Enrolled, enrolled_as, user_map, is_known}

-- The student of a record: an active one of the class, by the id of the row or of the user.
abbrev pub IsStudent : List Enrolled → String → Enrolled → Type 0
IsStudent students id e = In e students × ((e.id ≡ id) ⊎ (e.user_id ≡ id))

set-cases :
    (k j v w : String) (m : JsMap String)
    → get j (set k v m) ≡ some w
    → ((k ≡ j) × (v ≡ w)) ⊎ (get j m ≡ some w)
set-cases k j v w m h =
    let h' : (if str_eq k j then some v else get j m) ≡ some w = sym (get-set k j v m) ∙ h in
    elim (Bool-cases (str_eq k j)) [
      | inl e ↦
          let found_v : some v ≡ some w = rw e at h' in
          inl ((str_eq_iff k j).0 e, (let same : v ≡ w = cc in same))
      | inr e ↦ inr (let rest : get j m ≡ some w = rw e at h' in rest)
    ]

enrolled_as-cases :
    (e : Enrolled) (m : JsMap String) (j w : String)
    → get j (enrolled_as e m) ≡ some w
    → (((e.id ≡ j) ⊎ (e.user_id ≡ j)) × (e.user_id ≡ w)) ⊎ (get j m ≡ some w)
enrolled_as-cases e m j w h = by_id (given e.id && given e.user_id) h
  where
    by_user :
        (b : Bool)
        → get j (if b then set e.user_id e.user_id m else m) ≡ some w
        → (((e.id ≡ j) ⊎ (e.user_id ≡ j)) × (e.user_id ≡ w)) ⊎ (get j m ≡ some w)
    by_user false k = inr k
    by_user true k = elim (set-cases e.user_id j e.user_id w m k) [
      | inl (a, b) ↦ inl (inr a, b)
      | inr rest ↦ inr rest
    ]

    by_id :
        (b : Bool)
        → get j (
            let m' = if given e.user_id then set e.user_id e.user_id m else m in
            if b then set e.id e.user_id m' else m')
          ≡ some w
        → (((e.id ≡ j) ⊎ (e.user_id ≡ j)) × (e.user_id ≡ w)) ⊎ (get j m ≡ some w)
    by_id false k = by_user (given e.user_id) k
    by_id true k =
        elim (set-cases e.id j e.user_id w
          (if given e.user_id then set e.user_id e.user_id m else m) k) [
            | inl (a, b) ↦ inl (inl a, b)
            | inr rest ↦ by_user (given e.user_id) rest
          ]

-- What the map leads to is the user of an active student with that id.
pub user_map-cases :
    (m : JsMap String) (students : List Enrolled) (j w : String)
    → get j (user_map m students) ≡ some w
    → ((e : Enrolled) × IsStudent students j e × (e.user_id ≡ w)) ⊎ (get j m ≡ some w)
user_map-cases m [] j w h = inr h
user_map-cases m (e ∷ es) j w h = elim (user_map-cases (enrolled_as e m) es j w h) [
  | inl (d, (i, k), u) ↦ inl (d, (inr i, k), u)
  | inr here ↦ elim (enrolled_as-cases e m j w here) [
    | inl (k, u) ↦ inl (e, (inl refl, k), u)
    | inr rest ↦ inr rest
  ]
]

pub known-some :
    (m : JsMap String) (r : RecordItem)
    → is_known m r ≡ true
    → (w : String) × (get r.student_id m ≡ some w)
known-some m r h = elim (Option-cases (get r.student_id m)) [
  | inl n ↦ absurd (let bad : false ≡ true = rw n at h in cc)
  | inr (w, e) ↦ (w, e)
]
