-- ===== src/Exports/Sound.antt =====
-- What the columns of a job say at each status.
use seraphim.Common.{
  ℕ, ◌+◌, ◌≡◌, refl, sym, arith, inl, inr, Bool-cases, Bool, true, false, not, ◌&&◌, ◌||◌, Option,
  none, some, [], ◌∷◌, ◌==◌, where_, any, is_some, leb,
}
use seraphim.Common.Table.{Table, find, put}
use seraphim.Common.Text.{Text}
use seraphim.Exports.{ExportJob, JobStatus, earlier, is_pending_job, oldest}

abbrev pub lasts_a_day : ℕ → Option ℕ → Bool
lasts_a_day created none = false
lasts_a_day created (some t) = t == created + 86400

-- A ready job has a file for a day; an expired one has none; another one has no end and no file.
abbrev pub sound_columns : JobStatus → ℕ → Option ℕ → Option Text → Bool
sound_columns JobStatus.pending created ends file = not (is_some ends) && not (is_some file)
sound_columns JobStatus.running created ends file = not (is_some ends) && not (is_some file)
sound_columns JobStatus.ready created ends file = lasts_a_day created ends && is_some file
sound_columns JobStatus.failed created ends file = not (is_some ends) && not (is_some file)
sound_columns JobStatus.expired created ends file = not (is_some file)

abbrev pub is_sound : ExportJob → Bool
is_sound job = sound_columns job.status job.created_at job.expires_at job.file_path

abbrev pub is_unsound : ℕ × ExportJob → Bool
is_unsound (id, job) = not (is_sound job)

abbrev pub Sound : Table ExportJob → Type 0
Sound rows = any is_unsound rows ≡ false

pub put-Sound :
    (id : ℕ) (job : ExportJob) (rows : Table ExportJob)
    → Sound rows
    → is_sound job ≡ true
    → Sound (put id job rows)
unfolding any put
put-Sound id job [] h sound = ground (arith, sound)
put-Sound id job (row ∷ rows) h sound = ground (arith, h, sound, put-Sound id job rows)

pub find-Sound :
    (id : ℕ) (job : ExportJob) (rows : Table ExportJob)
    → Sound rows
    → find id rows ≡ some job
    → is_sound job ≡ true
unfolding any find
find-Sound id job [] h found = absurd (cc found)
find-Sound id job (row ∷ rows) h found = elim (Bool-cases (row.0 == id)) [
  | inl here ↦ (let e : row.1 ≡ job = cc (rw here at found) in rw (sym e) (ground (arith, h)))
  | inr later ↦ find-Sound id job rows (ground (arith, h)) (rw later at found)
]

-- The job that is picked is pending and sound.
abbrev pub is_wrong : ℕ × ExportJob → Bool
is_wrong row = is_unsound row || not (is_pending_job row)

pub none_wrong :
    (rows : Table ExportJob) → Sound rows → any is_wrong (where_ is_pending_job rows) ≡ false
unfolding any where_
none_wrong [] h = refl
none_wrong (row ∷ rows) h = elim (Bool-cases (is_pending_job row)) [
  | inl pending_ ↦ rw pending_ (ground (arith, h, pending_, none_wrong rows))
  | inr other ↦ rw other (none_wrong rows (ground (arith, h)))
]

earlier-right :
    (row : ℕ × ExportJob) (best : Option (ℕ × ExportJob))
    → is_wrong row ≡ false
    → ((found : ℕ × ExportJob) → best ≡ some found → is_wrong found ≡ false)
    → is_wrong (earlier row best) ≡ false
earlier-right row none right others = right
earlier-right row (some best) right others =
    elim (Bool-cases (leb row.1.created_at best.1.created_at)) [
      | inl first ↦ rw first right
      | inr later ↦ rw later (others best refl)
    ]

pub oldest-right :
    (rows : Table ExportJob) (found : ℕ × ExportJob)
    → any is_wrong rows ≡ false
    → oldest rows ≡ some found
    → is_wrong found ≡ false
unfolding any oldest
oldest-right [] found h e = absurd (cc e)
oldest-right (row ∷ rows) found h e =
    let same : earlier row (oldest rows) ≡ found = cc e in
    rw (sym same) (
      earlier-right row (oldest rows) (ground (arith, h))
        (λ other o. oldest-right rows other (ground (arith, h)) o))

pub pending_columns :
    (status : JobStatus) (created : ℕ) (ends : Option ℕ) (file : Option Text)
    → (elim status [ JobStatus.pending ↦ true | _ ↦ false ]) ≡ true
    → sound_columns status created ends file ≡ true
    → sound_columns JobStatus.running created ends file ≡ true
pending_columns JobStatus.pending created ends file h sound = sound
pending_columns JobStatus.running created ends file h sound = absurd (cc h)
pending_columns JobStatus.ready created ends file h sound = absurd (cc h)
pending_columns JobStatus.failed created ends file h sound = absurd (cc h)
pending_columns JobStatus.expired created ends file h sound = absurd (cc h)
