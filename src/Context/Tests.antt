-- ===== src/Context/Tests.antt =====
-- The theorems on correlation IDs at concrete inputs.
use task_queue_system.Prelude.{◌≡◌, refl, txt, some, trim}
use task_queue_system.Context.{normalise_correlation_id, is_safe_char}
use task_queue_system.Context.Normal.{
  IsNormal, normalise_correlation_id-IsNormal, normalise_correlation_id_of_IsNormal,
}

cleaned : normalise_correlation_id (some (txt " trace\n-7 ")) ≡ some (txt "trace-7")
unfolding normalise_correlation_id is_safe_char trim
cleaned = refl

normalise_correlation_id-IsNormal_example : IsNormal (txt "trace-7")
normalise_correlation_id-IsNormal_example =
    normalise_correlation_id-IsNormal (some (txt " trace\n-7 ")) _ cleaned

normalise_correlation_id_of_IsNormal_example :
    normalise_correlation_id (some (txt "trace-7")) ≡ some (txt "trace-7")
normalise_correlation_id_of_IsNormal_example =
    normalise_correlation_id_of_IsNormal (txt "trace-7")
      (normalise_correlation_id-IsNormal (some (txt " trace\n-7 ")) _ cleaned)
