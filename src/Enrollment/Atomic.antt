-- ===== src/Enrollment/Atomic.antt =====
-- An enrollment that raises has committed nothing.
use seraphim.Common.{ℕ, Option, none, some}
use seraphim.Common.Text.{Text}
use seraphim.Models.{ComprefaceSubject, SampleSource}
use seraphim.Session.{commit}
use seraphim.Session.Atomic.{
  Atomic, Atomic-Quiet, Atomic-bind, Atomic-then, Atomic-commit, pure_total, Quiet, Quiet-modify,
  atomic_rules, quiet_rules,
}
use seraphim.Enrollment.{
  World, Crop, Reply, enroll_contact_face, resolve_subject, second_lookup, or_insert,
  insert_subject, flush_failed, add_subject, finish_enrollment,
}

insert_subject-Quiet : (c : ℕ) → Quiet (insert_subject c)
unfolding insert_subject flush_failed add_subject
insert_subject-Quiet c = search quiet_rules depth 9

second_lookup-Quiet : (c : ℕ) (o : Option (ℕ × ComprefaceSubject)) → Quiet (second_lookup c o)
unfolding second_lookup
second_lookup-Quiet c none = search quiet_rules depth 8
second_lookup-Quiet c (some x) = search quiet_rules

or_insert-Quiet : (c : ℕ) (o : Option (ℕ × ComprefaceSubject)) → Quiet (or_insert c o)
or_insert-Quiet c none = unfold or_insert in insert_subject-Quiet c
or_insert-Quiet c (some x) = unfold or_insert in search quiet_rules

resolve_subject-Quiet : (c : ℕ) → Quiet (resolve_subject c)
resolve_subject-Quiet c =
    unfold resolve_subject in search (quiet_rules, second_lookup-Quiet, or_insert-Quiet) depth 8

finish_enrollment-Atomic :
    (c : ℕ) (source : SampleSource) (subject : ℕ × ComprefaceSubject) (paths : Text × Text)
    (reply : Reply)
    → Atomic (finish_enrollment c source subject paths reply)
unfolding finish_enrollment
finish_enrollment-Atomic c source subject paths Reply.raised =
    Atomic-Quiet _ (search quiet_rules depth 8)
finish_enrollment-Atomic c source subject paths Reply.no_image =
    Atomic-Quiet _ (search quiet_rules depth 8)
finish_enrollment-Atomic c source (key, subject) paths (Reply.image image_id) =
    Atomic-bind _ _ (Quiet-modify _) (λ a.
      Atomic-bind _ _ (Quiet-modify _)
        (λ b. Atomic-then commit _ Atomic-commit (λ d s. pure_total _ s)))

pub enroll_contact_face-Atomic :
    (world : World) (c : ℕ) (crop : Crop) (source : SampleSource)
    → Atomic (enroll_contact_face world c crop source)
enroll_contact_face-Atomic world c crop source =
    unfold enroll_contact_face in
    search (atomic_rules, resolve_subject-Quiet, finish_enrollment-Atomic) depth 10
