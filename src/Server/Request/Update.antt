-- ===== src/Server/Request/Update.antt =====
-- `streamUpdate` of request.cpp: what a session sends of the latest entries.
use scdtr.Prelude.{
  ℕ, zero, suc, ◌+◌, ◌*◌, Bool, false, none, some, List, [], ◌∷◌, ◌++◌, ltb, if◌then◌else◌, get_or,
  set,
}
use scdtr.Float.{Float}
use scdtr.Text.{to_string}
use scdtr.Server.{stream_flags}
use scdtr.Server.System.{Entry, System, minus_one, get_latest_entry}
use scdtr.Server.Request.{Streams}

module _ {F : Type 0} ⦃fl : Float F⦄ where
  -- One value of a stream, if there is one.
  abbrev pub stream_text : ℕ → ℕ → F → ℕ → List ℕ
  stream_text var i value timestamp =
      if fl.eq value minus_one
      then []
      else b'c'
        ∷ b' '
        ∷ var
        ∷ b' '
        ∷ (to_string i
            ++ (b' ' ∷ (fl.to_string value ++ (b' ' ∷ (to_string timestamp ++ (b' ' ∷ []))))))

  -- What one new entry of node `i` adds to the response.
  abbrev pub entry_text : List Bool → ℕ → Entry F → List ℕ
  entry_text flags i e =
      (if get_or flags (stream_flags * i) false then stream_text b'l' i e.lux e.timestamp else [])
      ++ (if get_or flags (stream_flags * i + 1) false
          then stream_text b'd' i e.duty_cycle e.timestamp
          else [])

  -- One turn of the loop of `streamUpdate`: the timestamps and the response.
  abbrev pub stream_step : System F → List Bool → ℕ → List ℕ → List ℕ → List ℕ × List ℕ
  stream_step s flags i timestamps response = elim (get_latest_entry s i) [
    | none ↦ (timestamps, response)
    | some e ↦
        if ltb (get_or timestamps i 0) e.timestamp
        then (set timestamps i e.timestamp, response ++ entry_text flags i e)
        else (timestamps, response)
  ]

  unfoldable pub stream_from : System F → List Bool → ℕ → ℕ → List ℕ → List ℕ → List ℕ × List ℕ
  stream_from s flags zero i timestamps response = (timestamps, response)
  stream_from s flags (suc left) i timestamps response =
      let (timestamps', response') = stream_step s flags i timestamps response in
      stream_from s flags left (i + 1) timestamps' response'

  -- The new timestamps and the response; the vectors have a place for each node (`IsFitting`).
  unfoldable pub stream_update : System F → Streams → Streams × List ℕ
  unfolding stream_from
  stream_update s st =
      let (timestamps, response) = stream_from s st.flags s.nodes 0 st.timestamps [] in
      (record st { timestamps = timestamps }, response)
