-- ===== src/Checkpoints/Reviews.antt =====
-- The reviews in the typed memory, and what `review_passed` reads.
use carestechs_agent_orchest.Prelude.{
  Bool, Option, none, some, [], ◌∷◌, ◌++◌, str_eq, ◌≡◌, refl, arith, ap, ◌∙◌, if◌then◌else◌,
}
use carestechs_agent_orchest.Json.Value.{ℤ, null, int, bool, object, Fields, get, merge}
use carestechs_agent_orchest.Json.Laws.{lookup-set_other}
use carestechs_agent_orchest.Memory.Shape.{Verdict, LifecycleReview, LifecycleMemory}
use carestechs_agent_orchest.Memory.Codec.{to_run_memory}
use carestechs_agent_orchest.Memory.Store.{read_lifecycle_memory, write_lifecycle_memory}
use carestechs_agent_orchest.Memory.RoundTrip.{read-write_lifecycle_memory}
use carestechs_agent_orchest.Flow.Predicates.{Env, from_last, review_passed}
use carestechs_agent_orchest.Runtime.Bookkeeping.{apply_patch}
use carestechs_agent_orchest.Checkpoints.Patches.{text_of, add_review, patch_review}

module _ (env : Env) (to_int : (n : ℤ) → env.lax.to_int (int n) ≡ some n)
    (to_bool : (b : Bool) → env.lax.to_bool (bool b) ≡ some b) where
  review_written :
      (result memory patch : Fields) (m : LifecycleMemory)
      → read_lifecycle_memory env.lax memory ≡ some m
      → patch_review env result memory ≡ some patch
      → patch
        ≡ write_lifecycle_memory (
            add_review
              (text_of env "task_id" result)
              (text_of env "verdict" result)
              (text_of env "feedback" result)
              m)
  unfolding patch_review
  review_written result memory patch m r h = ground (arith, r, h)

  read_written :
      (m : LifecycleMemory) (memory : Fields)
      → read_lifecycle_memory env.lax (apply_patch (write_lifecycle_memory m) memory) ≡ some m
  unfolding write_lifecycle_memory apply_patch merge
  read_written m memory =
      (read-write_lifecycle_memory env.lax to_int to_bool m memory "plans" refl).0

  unseen :
      (m : LifecycleMemory) (memory : Fields) (last : Option Fields)
      → from_last "verdict" last ≡ null
      → get "review_history" memory ≡ null
      → review_passed env (apply_patch (write_lifecycle_memory m) memory) last ≡ none
  unfolding review_passed apply_patch write_lifecycle_memory get
  unseen m memory last h k = ground (
    arith,
    h,
    k,
    lookup-set_other "lifecycle.v1" "review_history" (object (to_run_memory m)) memory refl,
  )

  -- If pydantic's `int` and `bool` take every integer and Boolean as it is, let the canonical writer of
  -- reviews record a result. Then the memory that is read back has the reviews of before and behind
  -- them one more, of the result's task, which passes exactly if the result's verdict is `pass`. Still
  -- `review_passed` raises on that memory where the last result carries no verdict and the data has no
  -- key `review_history`, which this writer does not write: the reviews that are there are not found.
  pub review_passed-unseen :
      (result memory patch : Fields) (m : LifecycleMemory) (last : Option Fields)
      → read_lifecycle_memory env.lax memory ≡ some m
      → patch_review env result memory ≡ some patch
      → from_last "verdict" last ≡ null
      → get "review_history" memory ≡ null
      → (after : LifecycleMemory) × (review : LifecycleReview) × (read_lifecycle_memory env.lax
            (apply_patch patch memory)
          ≡ some after)
        × (after.review_history ≡ m.review_history ++ (review ∷ []))
        × (review.task_id ≡ text_of env "task_id" result)
        × (review.verdict
            ≡ (if str_eq (text_of env "verdict" result) "pass" then Verdict.pass else Verdict.fail))
        × (review_passed env (apply_patch patch memory) last ≡ none)
  unfolding add_review
  review_passed-unseen result memory patch m last r h l k =
      let reviewed =
        add_review (text_of env "task_id" result) (text_of env "verdict" result)
          (text_of env "feedback" result) m in
      let written = review_written result memory patch m r h in
      (
        reviewed,
        _,
        ap (λ q. read_lifecycle_memory env.lax (apply_patch q memory)) written
            ∙ read_written reviewed memory,
        refl,
        refl,
        refl,
        ap (λ q. review_passed env (apply_patch q memory) last) written
            ∙ unseen reviewed memory last l k,
      )
