-- ===== src/Tests/Faces.antt =====
-- Faces from the camera.
use seraphim.Common.{◌≡◌, ◌≤◌, refl, true, false, none, some, arith, count, any, is_some}
use seraphim.Common.Text.{Text, codes}
use seraphim.Models.{Tier}
use seraphim.Session.{request}
use seraphim.Enrollment.{check_quality, has_subject_id}
use seraphim.Dedup.{DedupCache, is_duplicate, hash_face}
use seraphim.Pipeline.{Capture, process_face_crop}
use seraphim.Pipeline.Routing.{process_face_crop-offered}
use seraphim.Review.Queue.{get_next_task}
use seraphim.Requests.{empty}
use seraphim.Tests.Rows.{capture, no_faces, clear_face}

sharp : check_quality clear_face ≡ true
unfolding check_quality
sharp = refl

abbrev known_capture : Capture
known_capture = record capture {
  recognition = some (record {
    subject_id = some (codes "contact_7");
    similarity = some 990;
    tier = Tier.tier_100;
  });
}

unknown_new : (is_duplicate none (some (hash_face capture.grays)) 900 no_faces).0 ≡ false
unfolding is_duplicate any hash_face
unknown_new = refl

no_subjects : (text : Text) → count (has_subject_id text) empty.subjects ≤ 1
unfolding count
no_subjects text = omega arith

process_face_crop-offered_example :
    is_some (get_next_task (request (process_face_crop capture no_faces).0 empty).1 1000 2) ≡ true
process_face_crop-offered_example =
    process_face_crop-offered capture no_faces empty sharp unknown_new no_subjects 2 1000 refl
      (unfold any in refl) (omega arith)

abbrev after_seven : DedupCache
after_seven = (is_duplicate (some (codes "contact_7")) none 900 no_faces).1
