-- ===== src/TextKeyCache/Tests.antt =====
-- Runs of extensions/ultracompress/src/text-key-cache.ts.
use steak_pi.Prelude.{◌≡◌, refl, none, some, List, [], ◌∷◌, units}
use steak_pi.TextKeyCache.{
  new_cache, clear, set_scope, take_out, evict, remember, get, Call, answer_call, answer_calls,
  sets_scope, gets,
}
use steak_pi.TextKeyCache.Memo.{promised, answer_calls-promised}
use steak_pi.TextKeyCache.Bounds.{IsBounded, answer_calls-new_cache-IsBounded}
use Prim.Native.String.{◌++◌ as concat}

abbrev five_calls : List Call
five_calls = gets "ab" ∷ gets "cd" ∷ gets "ab" ∷ sets_scope "s" ∷ gets "ab" ∷ []

cached_run : answer_calls concat (new_cache 3 2) five_calls ≡ (
  record { entries = ("ab", "sab") ∷ []; chars = 2; scope = "s"; max_chars = 3; max_entries = 2 },
  some "ab" ∷ some "cd" ∷ some "ab" ∷ none ∷ some "sab" ∷ [],
)
unfolding answer_calls answer_call get set_scope clear take_out remember evict new_cache units
cached_run = refl

answer_calls-promised_example :
    (answer_calls concat (new_cache 3 2) five_calls).1 ≡ promised concat "" five_calls
answer_calls-promised_example = answer_calls-promised concat 3 2 five_calls

answer_calls-new_cache-IsBounded_example :
    IsBounded (answer_calls concat (new_cache 3 2) five_calls).0
answer_calls-new_cache-IsBounded_example = answer_calls-new_cache-IsBounded concat 3 2 five_calls
