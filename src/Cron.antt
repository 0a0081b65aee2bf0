-- ===== src/Cron.antt =====
-- github.com/robfig/cron/v3: the parser of the five-field schedules, and the schedules.
use questdb_operator.Prelude.{ℕ, String, ◌<◌, Option}

-- `parse` is `cron.NewParser(Minute | Hour | Dom | Month | Dow).Parse`; times are nanoseconds.
pub record Cron : Type 1 where
  pub Crontab : Type 0
  pub parse : String → Option Crontab
  pub next : Crontab → ℕ → ℕ

-- "Next returns the next activation time, later than the given time."
abbrev pub NextIsLater : Cron → Type 0
NextIsLater cron = (crontab : Cron.Crontab cron) (now : ℕ) → now < Cron.next cron crontab now
