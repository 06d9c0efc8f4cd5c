-- ===== src/Attendance/State.antt =====
-- The tables of the attendance service (app/models/). A moment is in microseconds, in UTC; a date is
-- a number of days. Scores are integers in millionths.
use frass_f.Base.{ℕ, ◌*◌, Bool, Option, Text, Table}
use frass_f.Base.Int.{ℤ}

abbrev pub minutes : ℕ → ℕ
minutes n = n * 60000000

-- The microseconds of a day.
abbrev pub day : ℕ
day = minutes 1440

pub data SessionStatus : Type 0 where
  active ended : SessionStatus

pub record AttendanceSession : Type 0 where
  pub started_by : ℕ
  pub schedule_id : Option ℕ
  pub tolerance : ℤ
  pub status : SessionStatus
  pub started_at : ℕ
  pub ended_at : Option ℕ

pub data Status : Type 0 where
  present late absent : Status

pub data Method : Type 0 where
  face manual : Method

pub record AttendanceRecord : Type 0 where
  pub student_id : ℕ
  pub session_id : Option ℕ
  pub date : ℕ
  pub time_in : ℕ
  pub status : Status
  pub confidence : Option ℤ
  pub method : Method
  pub liveness_score : Option ℤ
  pub notes : Option Text

pub record Student : Type 0 where
  pub student_id : Text
  pub name : Text
  pub email : Option Text
  pub department : Option Text
  pub semester : Option ℕ
  pub photo_count : ℕ
  pub is_active : Bool

pub record Schedule : Type 0 where
  pub name : Text
  pub department : Option Text
  pub days_of_week : Text
  pub start_time : Text
  pub end_time : Text
  pub late_threshold : ℕ
  pub grace_period : ℕ
  pub is_active : Bool

pub record School : Type 0 where
  pub sessions : Table AttendanceSession
  pub records : Table AttendanceRecord
  pub students : Table Student
  pub schedules : Table Schedule

-- `datetime.now(timezone.utc)` and `date.today()`, which is the date of the local time.
pub record Clock : Type 0 where
  pub now : ℕ
  pub today : ℕ
