-- ===== src/Storage/Persistent/Setters.antt =====
-- Writes of the state keys, in `PersistentStorage` and in the back end in memory.
use ca_op.Prelude.{ℕ, ◌≡◌, refl, sym, subst, ◌∙◌, inl, false, Option, none}
use ca_op.Ballot.{Ballot}
use ca_op.Storage.{StopSign}
use ca_op.Storage.Memory
use ca_op.Storage.Memory.{MemoryStorage}
use ca_op.Storage.Persistent.{
  StateKey, nprom, acc, decide, trim_key, stopsign_key, snapshot_key, put, DbOps, Codec, Codecs,
}
use ca_op.Storage.Persistent.Laws.{eq_key, DbLaws}
use ca_op.Storage.Persistent.Mirrors.{HoldsValue, HoldsLog, Mirrors}

module _ {ℓ} {D V : Type 0} {T S : Type ℓ} (dbs : DbOps D V) (codecs : Codecs T S V)
    (laws : DbLaws dbs) where
  put-log :
      (d : D) (key : StateKey) (v : V) (m : MemoryStorage T S)
      → HoldsLog dbs codecs laws d m.trimmed_idx m.log
      → HoldsLog dbs codecs laws (dbs.write_one (put key v) d) m.trimmed_idx m.log
  put-log d key v m h k = laws.at_put k key v d ∙ h k

  -- A write of another key.
  keep {κ} :
      {A : Type κ} (c : Codec A V) (default a : A) (key other : StateKey) (v : V) (d : D)
      → eq_key other key ≡ false
      → HoldsValue c default a (dbs.get key d)
      → HoldsValue c default a (dbs.get key (dbs.write_one (put other v) d))
  keep c default a key other v d differ h =
      subst (HoldsValue c default a) (sym (rw differ at (laws.get_put key other v d))) h

  pub set_promise-Mirrors :
      (d : D) (next : ℕ) (m : MemoryStorage T S) (bal : Ballot)
      → Mirrors dbs codecs laws d next m
      → Mirrors dbs codecs laws
          (dbs.write_one (put nprom (codecs.of_ballot.serialize bal)) d)
          next
          (Memory.set_promise m bal)
  unfolding Memory.set_promise
  set_promise-Mirrors d next m bal r =
      let v = codecs.of_ballot.serialize bal in
      let h = r.state in
      record {
        next_key = r.next_key;
        log = put-log d nprom v m r.log;
        state = (
          laws.get_put nprom nprom v d,
          laws.get_put acc nprom v d ∙ h.1,
          keep codecs.of_index 0 m.ld decide nprom v d refl (h.2),
          keep codecs.of_index 0 m.compacted_idx trim_key nprom v d refl (h.3),
          keep codecs.of_stopsign none m.stopsign stopsign_key nprom v d refl (h.4),
          keep codecs.of_snapshot none m.snapshot snapshot_key nprom v d refl (h.5),
        );
      }

  pub set_accepted_round-Mirrors :
      (d : D) (next : ℕ) (m : MemoryStorage T S) (bal : Ballot)
      → Mirrors dbs codecs laws d next m
      → Mirrors dbs codecs laws
          (dbs.write_one (put acc (codecs.of_ballot.serialize bal)) d)
          next
          (Memory.set_accepted_round m bal)
  unfolding Memory.set_accepted_round
  set_accepted_round-Mirrors d next m bal r =
      let v = codecs.of_ballot.serialize bal in
      let h = r.state in
      record {
        next_key = r.next_key;
        log = put-log d acc v m r.log;
        state = (
          laws.get_put nprom acc v d ∙ h.0,
          laws.get_put acc acc v d,
          keep codecs.of_index 0 m.ld decide acc v d refl (h.2),
          keep codecs.of_index 0 m.compacted_idx trim_key acc v d refl (h.3),
          keep codecs.of_stopsign none m.stopsign stopsign_key acc v d refl (h.4),
          keep codecs.of_snapshot none m.snapshot snapshot_key acc v d refl (h.5),
        );
      }

  pub set_decided_idx-Mirrors :
      (d : D) (next : ℕ) (m : MemoryStorage T S) (idx : ℕ)
      → Mirrors dbs codecs laws d next m
      → Mirrors dbs codecs laws
          (dbs.write_one (put decide (codecs.of_index.serialize idx)) d)
          next
          (Memory.set_decided_idx m idx)
  unfolding Memory.set_decided_idx
  set_decided_idx-Mirrors d next m idx r =
      let v = codecs.of_index.serialize idx in
      let h = r.state in
      record {
        next_key = r.next_key;
        log = put-log d decide v m r.log;
        state = (
          laws.get_put nprom decide v d ∙ h.0,
          laws.get_put acc decide v d ∙ h.1,
          inl (laws.get_put decide decide v d),
          keep codecs.of_index 0 m.compacted_idx trim_key decide v d refl (h.3),
          keep codecs.of_stopsign none m.stopsign stopsign_key decide v d refl (h.4),
          keep codecs.of_snapshot none m.snapshot snapshot_key decide v d refl (h.5),
        );
      }

  pub set_compacted_idx-Mirrors :
      (d : D) (next : ℕ) (m : MemoryStorage T S) (idx : ℕ)
      → Mirrors dbs codecs laws d next m
      → Mirrors dbs codecs laws
          (dbs.write_one (put trim_key (codecs.of_index.serialize idx)) d)
          next
          (Memory.set_compacted_idx m idx)
  unfolding Memory.set_compacted_idx
  set_compacted_idx-Mirrors d next m idx r =
      let v = codecs.of_index.serialize idx in
      let h = r.state in
      record {
        next_key = r.next_key;
        log = put-log d trim_key v m r.log;
        state = (
          laws.get_put nprom trim_key v d ∙ h.0,
          laws.get_put acc trim_key v d ∙ h.1,
          keep codecs.of_index 0 m.ld decide trim_key v d refl (h.2),
          inl (laws.get_put trim_key trim_key v d),
          keep codecs.of_stopsign none m.stopsign stopsign_key trim_key v d refl (h.4),
          keep codecs.of_snapshot none m.snapshot snapshot_key trim_key v d refl (h.5),
        );
      }

  pub set_stopsign-Mirrors :
      (d : D) (next : ℕ) (m : MemoryStorage T S) (ss : Option StopSign)
      → Mirrors dbs codecs laws d next m
      → Mirrors dbs codecs laws
          (dbs.write_one (put stopsign_key (codecs.of_stopsign.serialize ss)) d)
          next
          (Memory.set_stopsign m ss)
  unfolding Memory.set_stopsign
  set_stopsign-Mirrors d next m ss r =
      let v = codecs.of_stopsign.serialize ss in
      let h = r.state in
      record {
        next_key = r.next_key;
        log = put-log d stopsign_key v m r.log;
        state = (
          laws.get_put nprom stopsign_key v d ∙ h.0,
          laws.get_put acc stopsign_key v d ∙ h.1,
          keep codecs.of_index 0 m.ld decide stopsign_key v d refl (h.2),
          keep codecs.of_index 0 m.compacted_idx trim_key stopsign_key v d refl (h.3),
          inl (laws.get_put stopsign_key stopsign_key v d),
          keep codecs.of_snapshot none m.snapshot snapshot_key stopsign_key v d refl (h.5),
        );
      }

  pub set_snapshot-Mirrors :
      (d : D) (next : ℕ) (m : MemoryStorage T S) (snap : Option S)
      → Mirrors dbs codecs laws d next m
      → Mirrors dbs codecs laws
          (dbs.write_one (put snapshot_key (codecs.of_snapshot.serialize snap)) d)
          next
          (Memory.set_snapshot m snap)
  unfolding Memory.set_snapshot
  set_snapshot-Mirrors d next m snap r =
      let v = codecs.of_snapshot.serialize snap in
      let h = r.state in
      record {
        next_key = r.next_key;
        log = put-log d snapshot_key v m r.log;
        state = (
          laws.get_put nprom snapshot_key v d ∙ h.0,
          laws.get_put acc snapshot_key v d ∙ h.1,
          keep codecs.of_index 0 m.ld decide snapshot_key v d refl (h.2),
          keep codecs.of_index 0 m.compacted_idx trim_key snapshot_key v d refl (h.3),
          keep codecs.of_stopsign none m.stopsign stopsign_key snapshot_key v d refl (h.4),
          inl (laws.get_put snapshot_key snapshot_key v d),
        );
      }
