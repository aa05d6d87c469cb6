-- ===== src/Enrollment/Frame.antt =====
-- What an enrollment leaves alone.
use seraphim.Common.{ℕ, Option, none, some, List}
use seraphim.Common.Table.{Table}
use seraphim.Common.Text.{Text}
use seraphim.Models.{Db, ComprefaceSubject, FaceSample, SampleSource}
use seraphim.Session.{modify}
use seraphim.Session.Keeps.{Keeps, keeps_rules, Keeps-modify}
use seraphim.Enrollment.{
  World, Crop, Reply, enroll_contact_face, resolve_subject, second_lookup, or_insert,
  insert_subject, flush_failed, add_subject, finish_enrollment,
}

-- `P` does not depend on the subjects and the samples.
abbrev pub EnrollmentAside : (Db → Type 0) → Type 0
EnrollmentAside P =
    (db : Db) (subjects : Table ComprefaceSubject) (samples : List FaceSample)
    → P db
    → P (record db { subjects = subjects; samples = samples })

module _ {P : Db → Type 0} (aside : EnrollmentAside P) where
  subjects-Keeps :
      (f : Db → Table ComprefaceSubject) → Keeps P (modify (λ db. record db { subjects = f db }))
  subjects-Keeps f = Keeps-modify _ λ db h. aside db (f db) db.samples h

  samples-Keeps : (f : Db → List FaceSample) → Keeps P (modify (λ db. record db { samples = f db }))
  samples-Keeps f = Keeps-modify _ λ db h. aside db db.subjects (f db) h

  insert_subject-Keeps : (c : ℕ) → Keeps P (insert_subject c)
  unfolding insert_subject flush_failed add_subject
  insert_subject-Keeps c = search (keeps_rules, subjects-Keeps) depth 8

  second_lookup-Keeps : (c : ℕ) (o : Option (ℕ × ComprefaceSubject)) → Keeps P (second_lookup c o)
  unfolding second_lookup
  second_lookup-Keeps c none = search keeps_rules
  second_lookup-Keeps c (some x) = search keeps_rules

  or_insert-Keeps : (c : ℕ) (o : Option (ℕ × ComprefaceSubject)) → Keeps P (or_insert c o)
  or_insert-Keeps c none = unfold or_insert in insert_subject-Keeps c
  or_insert-Keeps c (some x) = unfold or_insert in search keeps_rules

  resolve_subject-Keeps : (c : ℕ) → Keeps P (resolve_subject c)
  resolve_subject-Keeps c =
      unfold resolve_subject in search (keeps_rules, second_lookup-Keeps, or_insert-Keeps)

  finish_enrollment-Keeps :
      (c : ℕ) (source : SampleSource) (subject : ℕ × ComprefaceSubject) (paths : Text × Text)
      (reply : Reply)
      → Keeps P (finish_enrollment c source subject paths reply)
  unfolding finish_enrollment
  finish_enrollment-Keeps c source subject paths Reply.raised = search keeps_rules
  finish_enrollment-Keeps c source subject paths Reply.no_image = search keeps_rules
  finish_enrollment-Keeps c source (key, subject) paths (Reply.image image_id) =
      search (keeps_rules, samples-Keeps, subjects-Keeps) depth 8

  pub enroll_contact_face-Keeps :
      (world : World) (c : ℕ) (crop : Crop) (source : SampleSource)
      → Keeps P (enroll_contact_face world c crop source)
  enroll_contact_face-Keeps world c crop source =
      unfold enroll_contact_face in
      search (keeps_rules, resolve_subject-Keeps, finish_enrollment-Keeps) depth 9
