-- ===== src/Server/ErrorLog.antt =====
-- server.go: `logStoreErr`, called by several handlers at once. A call reads the clock and the last
-- time, and swaps the time later if it is still the one it read.
use fizzbuzz.Prelude.{
  ℕ, ◌+◌, ◌*◌, ◌^◌, ◌≤◌, ◌<◌, ◌≡◌, refl, false, Bool-cases, inl, inr, not, ◌&&◌, List, [], ◌∷◌,
  arith, if◌then◌else◌, ◌==◌, ==→eq, lt_int, two_63, ◌-w◌,
}

-- int64(10*time.Second)
abbrev pub quiet_time : ℕ
quiet_time = 10 * 10 ^ 9

-- `lastErrLog`, and the times of the lines in the log, the latest one first.
pub record ErrorLog : Type 0 where
  pub last : ℕ
  pub lines : List ℕ

unfoldable pub new_error_log : ErrorLog
new_error_log = record { last = 0; lines = [] }

-- The rest of a call that read the times `now` and `last`.
unfoldable pub log_store_err : ℕ → ℕ → ErrorLog → ErrorLog
log_store_err now last log =
    if not (lt_int (now -w last) quiet_time) && (log.last == last)
    then record { last = now; lines = now ∷ log.lines }
    else log

-- Calls, the latest one first, with what each of them read.
unfoldable pub log_all : List (ℕ × ℕ) → ErrorLog
unfolding log_store_err new_error_log
log_all [] = new_error_log
log_all ((now, last) ∷ calls) = log_store_err now last (log_all calls)

-- Times before 2262.
abbrev pub AllTimes : List (ℕ × ℕ) → Type 0
AllTimes [] = Unit
AllTimes ((now, last) ∷ calls) = (now < two_63) × (last < two_63) × AllTimes calls

-- Each line stands ten seconds or more behind the one before, and the first that long behind the start.
abbrev pub Spaced : ℕ → List ℕ → Type 0
Spaced first [] = Unit
Spaced first (now ∷ []) = first + 10 * 10 ^ 9 ≤ now
Spaced first (now ∷ before ∷ lines) = (before + 10 * 10 ^ 9 ≤ now) × Spaced first (before ∷ lines)

abbrev latest : List ℕ → ℕ
latest [] = 0
latest (now ∷ lines) = now

Spaced-line :
    (now : ℕ) (lines : List ℕ)
    → latest lines + 10 * 10 ^ 9 ≤ now
    → Spaced 0 lines
    → Spaced 0 (now ∷ lines)
Spaced-line now [] h s = h
Spaced-line now (before ∷ lines) h s = (h, s)

abbrev Good : ErrorLog → Type 0
Good log = (log.last ≡ latest log.lines) × Spaced 0 log.lines

-- A swap that succeeds is ten seconds or more behind the last line.
log_store_err-Good :
    (now last : ℕ) (log : ErrorLog)
    → now < two_63
    → last < two_63
    → Good log
    → Good (log_store_err now last log)
unfolding log_store_err
log_store_err-Good now last log h k (same, spaced) =
    elim (Bool-cases (not (lt_int (now -w last) quiet_time) && (log.last == last))) [
      | inl logged ↦
          let late : lt_int (now -w last) quiet_time ≡ false = ground (arith, logged) in
          let current : log.last ≡ last = ==→eq _ _ (ground (arith, logged)) in
          let gap : last + quiet_time ≤ now = ground (arith, late) in
          rw logged (refl, Spaced-line now log.lines (omega arith) spaced)
      | inr dropped ↦ rw dropped (same, spaced)
    ]

log_all-Good : (calls : List (ℕ × ℕ)) → AllTimes calls → Good (log_all calls)
unfolding log_all new_error_log
log_all-Good [] t = (refl, tt)
log_all-Good ((now, last) ∷ calls) (h, k, t) =
    log_store_err-Good now last (log_all calls) h k (log_all-Good calls t)

-- For times that are not negative: in whatever order concurrent calls of `logStoreErr` read the times
-- and swap them, two lines of the log are ten seconds or more apart.
pub log_all-Spaced : (calls : List (ℕ × ℕ)) → AllTimes calls → Spaced 0 (log_all calls).lines
log_all-Spaced calls t = (log_all-Good calls t).1
