-- ===== src/Enrollment/Fails.antt =====
-- An enrollment for which CompreFace fails: what it rolls back.
use seraphim.Common.{ℕ, ◌≡◌, refl, Bool, true, false, some, List, [], ◌∷◌, any, where_, arith}
use seraphim.Common.Table.{find, fresh}
use seraphim.Common.Text.{Text}
use seraphim.Models.{Contact, ComprefaceSubject, SampleSource}
use seraphim.Session.{Fault, err, Session, ◌>>=◌, one_or_none}
use seraphim.Enrollment.{
  World, Crop, Reply, check_quality, subject_id_str, live_subject_of, has_subject_id,
  enroll_contact_face, resolve_subject, second_lookup, or_insert, insert_subject, add_subject,
  new_subject, finish_enrollment,
}

pub where_none {ℓ} : {A : Type ℓ} (p : A → Bool) (xs : List A) → any p xs ≡ false → where_ p xs ≡ []
unfolding where_ any
where_none p [] h = refl
where_none p (x ∷ xs) h = ground (arith, where_none p xs)

abbrev pub is_image : Reply → Bool
is_image (Reply.image id) = true
is_image _ = false

-- The error of a reply without an image id.
abbrev pub failure : Reply → Fault
failure Reply.raised = Fault.enrollment_failed
failure _ = Fault.no_image_id

finish_enrollment-fails :
    (c : ℕ) (source : SampleSource) (subject : ℕ × ComprefaceSubject) (paths : Text × Text)
    (r : Reply) (s : Session)
    → is_image r ≡ false
    → finish_enrollment c source subject paths r s
      ≡ (err (failure r), record s { work = s.committed })
unfolding finish_enrollment ◌>>=◌
finish_enrollment-fails c source subject paths Reply.raised s h = refl
finish_enrollment-fails c source subject paths Reply.no_image s h = refl
finish_enrollment-fails c source subject paths (Reply.image id) s h = cc

module _ (w : World) (c : ℕ) (crop : Crop) (source : SampleSource) (contact : Contact)
    (paths : Text × Text) (s : Session) (sharp : check_quality crop ≡ true)
    (known : find c s.work.contacts ≡ some contact)
    (no_subject : any (live_subject_of c) s.work.subjects ≡ false)
    (no_id : any (has_subject_id (subject_id_str c)) s.work.subjects ≡ false)
    (saved : w.saved ≡ some paths) (failed : is_image w.reply ≡ false) where
  pub enroll_contact_face-fails :
      enroll_contact_face w c crop source s
      ≡ (err (failure w.reply), record s { work = s.committed })
  unfolding enroll_contact_face ◌>>=◌ resolve_subject second_lookup or_insert insert_subject
      add_subject one_or_none
  enroll_contact_face-fails = rw sharp (
      rw known (
        rw (where_none _ _ no_subject) (
          rw (where_none _ _ no_id) (
            rw no_id (
              rw saved (
                finish_enrollment-fails c source (fresh s.work.subjects, new_subject c) paths
                  w.reply _ failed))))))
