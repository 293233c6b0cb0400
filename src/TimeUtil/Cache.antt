-- ===== src/TimeUtil/Cache.antt =====
-- coro_apps/util/time_util.h: the two functions of a `time_point`, with their thread_local buffer. Its
-- `thread_local` variables are a record; the buffer and `last_size` are the text that they give.
-- `gmtime` is a parameter, and a `time_point` is its second since 1970, not before.
use async_framework.Prelude.{
  ℕ, ◌≡◌, ◌≢◌, refl, ap, sym, ◌∙◌, Bool, true, false, List, [], ◌∷◌, ◌==◌, ==_iff,
}
use async_framework.TimeUtil.Print.{Tm, get_local_time_str, get_gmt_time_str, log_print_format}

pub record Cached : Type 0 where
  pub last_sec : ℕ
  pub text : List ℕ

abbrev pub first_cached : Cached
first_cached = record { last_sec = 0; text = [] }

-- The answer when the second is the last one, and otherwise.
abbrev pub answer : Bool → List ℕ → ℕ → Cached → Cached × List ℕ
answer true str s c = (c, c.text)
answer false str s c = (record { last_sec = s; text = str }, str)

module _ (gmtime : ℕ → Tm) where
  unfoldable pub cached_local_time_str : ℕ → Cached → Cached × List ℕ
  cached_local_time_str s c =
      answer (c.last_sec == s) (get_local_time_str 8 (gmtime s) log_print_format) s c

  unfoldable pub cached_gmt_time_str : ℕ → Cached → Cached × List ℕ
  cached_gmt_time_str s c = answer (c.last_sec == s) (get_gmt_time_str (gmtime s)) s c

  -- The calls of one thread, in order.
  unfoldable pub cached_run : List ℕ → Cached → Cached
  unfolding cached_gmt_time_str
  cached_run [] c = c
  cached_run (s ∷ rest) c = cached_run rest (cached_gmt_time_str s c).0

  -- What is kept is the text of its second, once a second after the first is kept.
  abbrev IsKept : Cached → Type 0
  IsKept c = c.last_sec ≢ 0 → c.text ≡ get_gmt_time_str (gmtime c.last_sec)

  answer-IsKept :
      (b : Bool) (s : ℕ) (c : Cached)
      → IsKept c
      → IsKept (answer b (get_gmt_time_str (gmtime s)) s c).0
  answer-IsKept true s c h = h
  answer-IsKept false s c h = λ n. refl

  cached_run-IsKept : (times : List ℕ) (c : Cached) → IsKept c → IsKept (cached_run times c)
  unfolding cached_run
  cached_run-IsKept [] c h = h
  cached_run-IsKept (s ∷ rest) c h =
      cached_run-IsKept rest (cached_gmt_time_str s c).0 (answer-IsKept (c.last_sec == s) s c h)

  answer-fresh :
      (b : Bool) (s : ℕ) (c : Cached)
      → (c.last_sec == s) ≡ b
      → IsKept c
      → s ≢ 0
      → (answer b (get_gmt_time_str (gmtime s)) s c).1 ≡ get_gmt_time_str (gmtime s)
  answer-fresh true s c e h n =
      let d = (==_iff c.last_sec s).0 e in
      h (λ z. n (sym d ∙ z)) ∙ ap (λ t. get_gmt_time_str (gmtime t)) d
  answer-fresh false s c e h n = refl

  -- After any calls of `get_gmt_time_str` on one thread, its cached answer for a second after the
  -- first of 1970 is what a fresh call gives.
  pub cached_gmt_time_str-fresh :
      (times : List ℕ) (s : ℕ)
      → s ≢ 0
      → (cached_gmt_time_str s (cached_run times first_cached)).1 ≡ get_gmt_time_str (gmtime s)
  unfolding cached_gmt_time_str
  cached_gmt_time_str-fresh times s n =
      let c = cached_run times first_cached in
      answer-fresh (c.last_sec == s) s c refl
        (cached_run-IsKept times first_cached (λ z. absurd (z refl))) n

  -- On a thread that has called neither function, both answer the first second of 1970 with an empty
  -- text, whatever `gmtime` gives.
  pub first_second_empty :
      ((cached_gmt_time_str 0 first_cached).1 ≡ [])
      × ((cached_local_time_str 0 first_cached).1 ≡ [])
  unfolding cached_gmt_time_str cached_local_time_str
  first_second_empty = (refl, refl)
