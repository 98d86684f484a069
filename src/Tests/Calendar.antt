-- ===== src/Tests/Calendar.antt =====
-- The sample platform's calendar, and the theorems on windows at concrete inputs.
use oracle_repo.Base.{ℕ, zero, suc, ◌/◌, ◌≡◌, refl, ap, true, false, some, arith}
use oracle_repo.Base.Text.{lower}
use oracle_repo.Base.Text.Clean.{all_clean, clean-strip}
use oracle_repo.RunSpec.{null, text, datetime}
use oracle_repo.Platform.{IsCalendar, ok, Format, timestamp_format, seconds_format, date_format}
use oracle_repo.Control.Watermark.{canonicalize, compute_window, from_row}
use oracle_repo.Control.Watermark.Texts.{compute_window-timestamp}
use oracle_repo.Control.Watermark.Canonical.{canonicalize-canonicalize}
use oracle_repo.Tests.Sample.{
  sample_platform, sample_mark, tally, read_tally, one_more, times_day, write,
}

tally-clean : (n : ℕ) → all_clean (tally n) ≡ true
tally-clean zero = refl
tally-clean (suc n) = tally-clean n

read_tally-tally : (n : ℕ) → read_tally (tally n) ≡ some n
read_tally-tally zero = refl
read_tally-tally (suc n) = ap one_more (read_tally-tally n)

write-clean : (f : Format) (t : ℕ) → all_clean (write f t) ≡ true
write-clean timestamp_format t = tally-clean t
write-clean seconds_format t = tally-clean t
write-clean date_format t = tally-clean (t / 86400000000)

sample_platform-IsCalendar : IsCalendar sample_platform 0
sample_platform-IsCalendar = record {
  written_clean = λ f t. clean-strip (write f t) (write-clean f t);
  read_timestamp = λ t late. read_tally-tally t;
  read_date = λ t late. ap times_day (read_tally-tally (t / 86400000000));
  date_no_timestamp = λ t. refl;
  date_no_seconds = λ t. refl;
  read_decimal = λ d. refl;
}

lower-timestamp : lower "timestamp" ≡ "timestamp"
unfolding lower
lower-timestamp = refl

datetime-canonical : canonicalize sample_platform (datetime 3) "timestamp" ≡ ok (some "111")
unfolding canonicalize lower
datetime-canonical = refl

-- The mark at 2 with an overlap of 1.
compute_window-timestamp_example :
    compute_window sample_platform (some (from_row sample_mark)) "timestamp" 1 null
    ≡ ok (record {
      lower_bound = some "1";
      stored_value = some "11";
      overlap_applied = true;
      is_first_run = false;
    })
unfolding from_row
compute_window-timestamp_example =
    compute_window-timestamp sample_platform-IsCalendar (from_row sample_mark) "timestamp" 1 2 null
      lower-timestamp refl (omega arith) (omega arith)

-- A datetime at 3.
canonicalize-canonicalize_example :
    canonicalize sample_platform (text "111") "timestamp" ≡ ok (some "111")
canonicalize-canonicalize_example =
    canonicalize-canonicalize sample_platform-IsCalendar (datetime 3) "timestamp" "111"
      (λ t h. omega arith) datetime-canonical
