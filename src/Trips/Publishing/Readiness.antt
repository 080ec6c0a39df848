-- ===== src/Trips/Publishing/Readiness.antt =====
-- When a draft may be published.
use eastbay_overland_rally_p.Prelude.{
  ℤ, pos, ◌≤ℤ◌, String, ◌≡◌, ◌≢◌, ◌↔◌, refl, Bool, true, false, List, [], ◌∷◌, Option, none, some,
  eq_iff, string_eq, arith,
}
use eastbay_overland_rally_p.Text.{trim_space}
use eastbay_overland_rally_p.Domain.{Trip, MemberId, Time, Location}
use eastbay_overland_rally_p.Trips.Publishing.{
  is_text, has_text, has_capacity, has_label, is_set, is_filled, unless,
  required_publish_fields_missing,
}

-- a text that is there and holds more than white space
abbrev pub HasText : Option String → Type 0
HasText o = (s : String) × (o ≡ some s) × (trim_space s ≢ "")

pub record IsReady (t : Trip) : Type 0 where
  pub name : HasText t.name
  pub description : HasText t.description
  pub start_date : (s : Time) × (t.start_date ≡ some s)
  pub end_date : (s : Time) × (t.end_date ≡ some s)
  pub capacity : (n : ℤ) × (t.capacity_rigs ≡ some n) × (pos 1 ≤ℤ n)
  pub difficulty : HasText t.difficulty_text
  pub meeting : (l : Location) × (t.meeting_location ≡ some l) × (trim_space l.label ≢ "")
  pub comms : HasText t.comms_requirements_text
  pub recommended : HasText t.recommended_requirements_text
  pub organized : t.organizer_member_ids ≢ []

unless-nil : (b : Bool) (f : String) (l : List String) → unless b f l ≡ [] → (b ≡ true) × (l ≡ [])
unless-nil true f l h = (refl, h)
unless-nil false f l h = cc

is_text_iff : (s : String) → (is_text s ≡ true) ↔ (trim_space s ≢ "")
unfolding is_text
is_text_iff s = ground (arith, eq_iff (trim_space s) "")

has_text-HasText : (o : Option String) → has_text o ≡ true → HasText o
has_text-HasText none h = cc
has_text-HasText (some s) h = (s, refl, (is_text_iff s).0 h)

HasText-has_text : (o : Option String) → HasText o → has_text o ≡ true
HasText-has_text o (s, e, h) = rw e ((is_text_iff s).1 h)

is_set-ok : {A : Type 0} (o : Option A) → is_set o ≡ true → (a : A) × (o ≡ some a)
is_set-ok none h = cc
is_set-ok (some a) h = (a, refl)

has_capacity-ok : (o : Option ℤ) → has_capacity o ≡ true → (n : ℤ) × (o ≡ some n) × (pos 1 ≤ℤ n)
has_capacity-ok none h = cc
has_capacity-ok (some n) h = (n, refl, ground arith)

ok-has_capacity : (o : Option ℤ) (n : ℤ) → o ≡ some n → pos 1 ≤ℤ n → has_capacity o ≡ true
ok-has_capacity o n e h = ground arith

has_label-ok :
    (o : Option Location)
    → has_label o ≡ true
    → (l : Location) × (o ≡ some l) × (trim_space l.label ≢ "")
has_label-ok none h = cc
has_label-ok (some l) h = (l, refl, (is_text_iff l.label).0 h)

is_filled_iff : (l : List MemberId) → (is_filled l ≡ true) ↔ (l ≢ [])
is_filled_iff [] = ground arith
is_filled_iff (x ∷ l) = ground arith

missing-IsReady : (t : Trip) → required_publish_fields_missing t ≡ [] → IsReady t
unfolding required_publish_fields_missing
missing-IsReady t h0 =
    let (name, h1) = unless-nil (has_text t.name) _ _ h0 in
    let (description, h2) = unless-nil (has_text t.description) _ _ h1 in
    let (start, h3) = unless-nil (is_set t.start_date) _ _ h2 in
    let (end, h4) = unless-nil (is_set t.end_date) _ _ h3 in
    let (capacity, h5) = unless-nil (has_capacity t.capacity_rigs) _ _ h4 in
    let (difficulty, h6) = unless-nil (has_text t.difficulty_text) _ _ h5 in
    let (meeting, h7) = unless-nil (has_label t.meeting_location) _ _ h6 in
    let (comms, h8) = unless-nil (has_text t.comms_requirements_text) _ _ h7 in
    let (recommended, h9) = unless-nil (has_text t.recommended_requirements_text) _ _ h8 in
    let (organized, _) = unless-nil (is_filled t.organizer_member_ids) _ _ h9 in
    record {
      name = has_text-HasText t.name name;
      description = has_text-HasText t.description description;
      start_date = is_set-ok t.start_date start;
      end_date = is_set-ok t.end_date end;
      capacity = has_capacity-ok t.capacity_rigs capacity;
      difficulty = has_text-HasText t.difficulty_text difficulty;
      meeting = has_label-ok t.meeting_location meeting;
      comms = has_text-HasText t.comms_requirements_text comms;
      recommended = has_text-HasText t.recommended_requirements_text recommended;
      organized = (is_filled_iff t.organizer_member_ids).0 organized;
    }

IsReady-missing : (t : Trip) → IsReady t → required_publish_fields_missing t ≡ []
unfolding required_publish_fields_missing
IsReady-missing t r =
    let (start, es) = r.start_date in
    let (end, ee) = r.end_date in
    let (n, en, positive) = r.capacity in
    let (l, el, labeled) = r.meeting in
    rw
      (
        HasText-has_text t.name r.name,
        HasText-has_text t.description r.description,
        es,
        ee,
        ok-has_capacity t.capacity_rigs n en positive,
        HasText-has_text t.difficulty_text r.difficulty,
        el,
        (is_text_iff l.label).1 labeled,
        HasText-has_text t.comms_requirements_text r.comms,
        HasText-has_text t.recommended_requirements_text r.recommended,
        (is_filled_iff t.organizer_member_ids).1 r.organized,
      )
      refl

-- No field is reported as missing exactly when the trip has all that a published trip needs.
pub required_publish_fields_missing_iff :
    (t : Trip) → (required_publish_fields_missing t ≡ []) ↔ IsReady t
required_publish_fields_missing_iff t = (missing-IsReady t, IsReady-missing t)
