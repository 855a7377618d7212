-- ===== src/Pipe/Tests.antt =====
-- Runs of the pipe of mit-6.828/lab/lib/pipe.c.
use papers_annotation.Prelude.{
  ◌+◌, ◌-◌, ◌^◌, ◌≤◌, ◌≡◌, ◌≢◌, refl, arith, Bool, true, false, List, [], ◌∷◌, length, take,
}
use papers_annotation.Pipe.{
  Reader, Writer, System, read_access, write_access, call_read, call_write, read, write, new_pipe,
  Reach, start, later,
}
use papers_annotation.Pipe.Fifo.{pipe_fifo}

-- `true` is an access of the writer, `false` one of the reader.
abbrev turns : List Bool → System → System
turns [] s = s
turns (true ∷ l) s = turns l (write_access false s.writer s)
turns (false ∷ l) s = turns l (read_access false s.reader s)

turns-Reach : (l : List Bool) {s : System} → Reach s → Reach (turns l s)
turns-Reach [] r = r
turns-Reach (true ∷ l) r = turns-Reach l (later r (write false))
turns-Reach (false ∷ l) r = turns-Reach l (later r (read false))

-- The reader asks for two bytes before the writer has written any, and waits.
abbrev calls : System
calls = record new_pipe { reader = Reader.looking 2 0; writer = Writer.looking (7 ∷ 8 ∷ []) 0 }

calls-Reach : Reach calls
calls-Reach = later (later start (call_read 2 0 refl)) (call_write (7 ∷ 8 ∷ []) 0 refl)

abbrev order : List Bool
order = false ∷ true ∷ true ∷ false ∷ true ∷ false ∷ true ∷ false ∷ false ∷ []

partway : System
partway = turns order calls

partway_result :
    (partway.got ≡ 7 ∷ []) × (partway.sent ≡ 7 ∷ []) × (partway.reader ≡ Reader.looking 2 1)
unfolding partway read_access write_access
partway_result = (refl, refl, refl)

partway-Reach : Reach partway
unfolding partway
partway-Reach = turns-Reach order calls-Reach

pipe_fifo_example :
    (partway.got ≡ take (length partway.got) partway.sent)
    × (length partway.got ≤ length partway.sent)
    × (length partway.sent ≤ length partway.got + 32)
    × (partway.reader ≢ Reader.fault)
    × (partway.writer ≢ Writer.fault)
unfolding partway read_access write_access
pipe_fifo_example = pipe_fifo partway-Reach (omega arith)

-- After 2 ^ 31 + 1 bytes the reader's position is negative, and its remainder too.
abbrev wrapped : System
wrapped = record new_pipe {
  pipe = record { p_rpos = 2 ^ 31 + 1; p_wpos = 2 ^ 31 + 2; p_buf = λ k. 0 };
  reader = Reader.taking 1 0;
}

wrapped_faults : (read_access false wrapped.reader wrapped).reader ≡ Reader.fault
unfolding read_access
wrapped_faults = refl

-- An empty pipe whose positions are the last that 32 bits hold counts as full.
abbrev last_position : System
last_position = record new_pipe {
  pipe = record { p_rpos = 2 ^ 32 - 1; p_wpos = 2 ^ 32 - 1; p_buf = λ k. 0 };
  writer = Writer.looking (7 ∷ []) 0;
}

empty_and_full :
    (write_access false last_position.writer last_position).writer ≡ Writer.looking (7 ∷ []) 0
unfolding write_access
empty_and_full = refl
