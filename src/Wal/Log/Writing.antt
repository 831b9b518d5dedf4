-- ===== src/Wal/Log/Writing.antt =====
-- What `flush`, `write_all` and `roll_segment` do to the files, the writer's buffer counted in.
use trapd_sensor.Prelude.{
  ℕ, ◌-◌, ◌≡◌, refl, sym, ap, subst, true, ltb, leb, ◌∙◌, ◌≢◌, some, [], ◌++◌, append_assoc,
  append-nil, Bytes, length, arith, if◌then◌else◌, to_le, inl, inr, Bool-cases, nil_of_length,
}
use trapd_sensor.Wal.Record.{Checksum, record_bytes}
use trapd_sensor.Wal.Directory.{lookup-write}
use trapd_sensor.Wal.Log.{
  SegmentedLog, segment_file, flush, flush_buf, file_append, or_empty, write_all_cold,
  buffer_capacity, write_all, write_record,
}

-- `bytes` reached the end of the active file or its buffer, and nothing else changed.
pub record Extends (log : SegmentedLog) (bytes : Bytes) (log' : SegmentedLog) : Type 0 where
  pub same :
      log' ≡ record log { dir = record log.dir { files = log'.dir.files }; writer = log'.writer }
  pub others : (id : ℕ) → id ≢ log.active_id → segment_file log' id ≡ segment_file log id
  pub extended :
      (file : Bytes)
      → segment_file log log.active_id ≡ some file
      → (file' : Bytes) × (segment_file log' log.active_id ≡ some file')
        × (file' ++ log'.writer ≡ (file ++ log.writer) ++ bytes)

file_append_other :
    (log : SegmentedLog) (bytes : Bytes) (id : ℕ)
    → id ≢ log.active_id
    → segment_file (file_append log bytes) id ≡ segment_file log id
unfolding file_append
file_append_other log bytes id h = ground (
  arith,
  lookup-write log.active_id id (or_empty (segment_file log log.active_id) ++ bytes) log.dir.files,
)

file_append_active :
    (log : SegmentedLog) (bytes file : Bytes)
    → segment_file log log.active_id ≡ some file
    → segment_file (file_append log bytes) log.active_id ≡ some (file ++ bytes)
unfolding file_append
file_append_active log bytes file e = ground (
  arith,
  lookup-write log.active_id log.active_id (or_empty (segment_file log log.active_id) ++ bytes)
      log.dir.files,
)

Extends-refl : (log : SegmentedLog) → Extends log [] log
Extends-refl log = record {
  same = refl;
  others = λ id h. refl;
  extended = λ file e. (file, e, sym (append-nil (file ++ log.writer)));
}

pub flush-Extends : (log : SegmentedLog) → Extends log [] (flush log)
unfolding flush file_append
flush-Extends log = record {
  same = refl;
  others = λ id h. file_append_other log log.writer id h;
  extended = λ file e. (file ++ log.writer, file_append_active log log.writer file e, refl);
}

hold : SegmentedLog → Bytes → SegmentedLog
hold log bytes = record log { writer = log.writer ++ bytes }

hold-Extends : (log : SegmentedLog) (bytes : Bytes) → Extends log bytes (hold log bytes)
unfolding hold
hold-Extends log bytes = record {
  same = refl;
  others = λ id h. refl;
  extended = λ file e. (file, e, sym (append_assoc file log.writer bytes));
}

-- A write past the buffer is in order only while the buffer is empty.
file_append-Extends :
    (log : SegmentedLog) (bytes : Bytes)
    → log.writer ≡ []
    → Extends log bytes (file_append log bytes)
unfolding file_append
file_append-Extends log bytes e = record {
  same = refl;
  others = λ id h. file_append_other log bytes id h;
  extended = λ file found.
      (file ++ bytes, file_append_active log bytes file found, rw e (simp append-nil));
}

pub Extends-trans :
    {log log' log'' : SegmentedLog} (xs ys : Bytes)
    → Extends log xs log'
    → Extends log' ys log''
    → Extends log (xs ++ ys) log''
Extends-trans {log} {log'} {log''} xs ys first second = record {
  same =
      second.same
      ∙ ap
          (λ (l : SegmentedLog). record l {
            dir = record l.dir { files = log''.dir.files };
            writer = log''.writer;
          })
          first.same;
  others = λ id h. second.others id (λ e. h (e ∙ active)) ∙ first.others id h;
  extended = λ file e.
      let (f1, e1, q1) = first.extended file e in
      let (f2, e2, q2) =
        second.extended f1 (subst (λ a. segment_file log' a ≡ some f1) (sym active) e1) in
      (
        f2,
        subst (λ a. segment_file log'' a ≡ some f2) active e2,
        q2 ∙ ap (λ (t : Bytes). t ++ ys) q1 ∙ append_assoc (file ++ log.writer) xs ys,
      );
}
  where
    active : log'.active_id ≡ log.active_id
    active = ap (λ (l : SegmentedLog). l.active_id) first.same

write_all_cold-Extends :
    (log : SegmentedLog) (bytes : Bytes)
    → (leb buffer_capacity (length bytes) ≡ true → log.writer ≡ [])
    → Extends log bytes (write_all_cold log bytes)
unfolding write_all_cold
write_all_cold-Extends log bytes empty = elim (Bool-cases (leb buffer_capacity (length bytes))) [
  | inl e ↦ rw (e, write_all_cold) (unfold file_append in file_append-Extends log bytes (empty e))
  | inr e ↦ rw (e, write_all_cold) (unfold hold in hold-Extends log bytes)
]

flush_first : SegmentedLog → Bytes → SegmentedLog
flush_first log bytes =
    if ltb (buffer_capacity - length log.writer) (length bytes) then flush_buf log else log

flush_first-Extends :
    (log : SegmentedLog) (bytes : Bytes)
    → Extends log [] (flush_first log bytes)
      × (leb buffer_capacity (length bytes) ≡ true → (flush_first log bytes).writer ≡ [])
unfolding flush_first
flush_first-Extends log bytes =
    elim (Bool-cases (ltb (buffer_capacity - length log.writer) (length bytes))) [
      | inl e ↦ rw (e, flush_first) (unfold flush flush_buf in (flush-Extends log, λ _. refl))
      | inr e ↦
          rw (e, flush_first) (Extends-refl log, λ full. nil_of_length log.writer (ground arith))
    ]

pub write_all-Extends :
    (log : SegmentedLog) (bytes : Bytes) → Extends log bytes (write_all log bytes)
unfolding write_all
write_all-Extends log bytes =
    elim (Bool-cases (ltb (length bytes) (buffer_capacity - length log.writer))) [
      | inl e ↦ rw (e, write_all) (unfold hold in hold-Extends log bytes)
      | inr e ↦
          let (flushed, empty) = flush_first-Extends log bytes in
          rw (e, write_all)
            (unfold flush_first in
              Extends-trans [] bytes flushed
                (write_all_cold-Extends (flush_first log bytes) bytes empty))
    ]

module _ ⦃c : Checksum⦄ where
  pub write_record-Extends :
      (log : SegmentedLog) (payload : Bytes)
      → Extends log (record_bytes payload) (write_record log payload)
  unfolding write_record record_bytes
  write_record-Extends log payload =
      rw (← append_assoc (to_le 4 (length payload)) (to_le 4 (c.hash payload)) payload) (
        Extends-trans (to_le 4 (length payload) ++ to_le 4 (c.hash payload)) payload
          (write_all-Extends log _) (write_all-Extends _ payload))
