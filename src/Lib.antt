-- ===== src/Lib.antt =====
-- Verification of ori-gateway, the gateway between Ori runtimes on a site's network, a language
-- model provider and an evidence authority. Runtimes publish authenticated messages over MQTT; the
-- gateway checks them, keeps what they report of each node, answers reasoning requests, and carries
-- evidence to the authority with a durable custody.
--
-- The parts modelled, with their files:
--
-- Courier (internal/evidence/courier). `DurableQueue` of queue.go is the record of the same name in
-- Courier/Queue/State.antt, with one field per field of the source, except the set of unconfigured
-- devices, which stands beside it as `Unconfigured` of Courier/Devices.antt.
-- Courier/Queue/Admit.antt has `enqueue`, `enqueueOrFind`, `insertLocked` and
-- `laneShareRefusalLocked`, Courier/Queue/Retire.antt `Remove`, `removeLocked` and the removals of
-- the sidecars, Courier/Queue/State.antt the indices by lane and device and the reads (`PeekLane`,
-- `PeekDevice`, `Lanes`), Courier/Queue/Disk.antt the directory as files by name with the outcomes
-- of an atomic write and of a removal, both of which can fail at the directory sync after they took
-- effect. Courier/Queue/Open.antt has `load`, the reading of a directory of files into a queue,
-- Courier/Queue/Open/Options.antt `openDurableQueue` with its options, and Courier/Devices.antt the
-- store's probe and the set of unconfigured devices (probe.go). Courier/Routing.antt has the
-- routing fields (routing.go), Courier/Sidecars.antt the holds and back-offs (hold.go), and
-- Courier/Sidecars/Valid.antt the hold that the delivery worker builds (`hold` of worker.go).
-- Courier/Backoff.antt has the back-off of a delivery lane (`scheduleBackoff` and `untilDue` of
-- worker.go) on its two clocks, Courier/Lane.antt the lane itself (`deliveryLane`): how an attempt
-- begins and holds, Courier/Lane/Attempt.antt the rest of `deliverHead`, Courier/Lane/Loop.antt the
-- loop `run`, Courier/Lane/Status.antt `Status`, and Courier/Lane/Run.antt the steps of a lane
-- among the other tasks of the process and its restarts; a restart is a step only where its opening
-- gives back a queue for the same list with the same holds, as an intact directory does.
-- Courier/Channel.antt reads the authority's response (channel.go), with the form that a refusal
-- must have for its status in Courier/Channel/Forms.antt. Courier/Ingress has a runtime's carriage
-- (`Handle` of runtime_ingress.go, `Admit` of courier.go and `Store` of return_queue.go),
-- Courier/Custody.antt the custody acknowledgement, Courier/Authority.antt the routing fields
-- (courier.go). The abstract view, in Courier/Queue/Model, is one ordered list of items: `Rep` says
-- that every map and counter of the queue is the one the list determines.
--
-- Refusal (internal/evidence/refusal/refusal.go): the closed vocabulary of refusals and the policy
-- that says whether a refused head is held, backs off or waits for a handoff. Faults
-- (internal/evidence/faults/faults.go): the active faults by source; the queue raises its own.
--
-- Auth (internal/mqttauth). Auth/Replay.antt has replay.go and `checkFreshAndRecord` of
-- mqttauth.go: the floor, the held keys and the four checks. Auth/Signing.antt has signingclock.go:
-- each operation under the lock is a function on the clock's state, and a timer that fires or a
-- write that ends is an operation too; Auth/Signing/Steps.antt joins the clock with its disk in a
-- step relation that allows every order of them.
--
-- Site (internal/site). Site/Evidence.antt has the memory of chain heads (evidence.go),
-- Site/Registry.antt the registry of heartbeats (site.go), Site/Degradation.antt the validation of
-- the degradation reasons (degradation.go), Site/Health.antt the projection (health.go).
-- Site/Registry/Consistency.antt applies the registry's operations in any sequence.
--
-- Session (internal/session/session.go): attempts, time-outs and the registry of requests.
--
-- Base has the shared names: tests over the native numbers, lists, Go maps as association lists,
-- and sorting. Samples applies the theorems at concrete inputs.
--
-- Conventions. Times and sizes are natural numbers: the sources' int64 values are not negative
-- there, and a difference of two times is written as a sum on the other side, so that no
-- subtraction is cut off. The sequence numbers of the queue do not wrap, as those of the source do
-- after a file that states the greatest int64. A Go map is an association list in which a write
-- takes the old entry out; a theorem about a loop over a map holds for the entries in any order. A
-- mutex is the order of the calls. Loops are structural recursion over what they walk, except
-- `prune`, which has one round for each held key: each round drops a key, so the rounds do not run
-- out.
--
-- Parameters. encoding/json and strings.EqualFold (`Json`), crypto/sha256 and the length of an
-- encoded record (`External`) and container/heap (`Heap`, by its first element) are arguments. The
-- file system is the outcome of each file operation; an opening is given the directory's entries in
-- the order of their names, and encoding/json as a decoder for each kind of file (`Decoders`). The
-- ingress is given the device that its topic names, the routing domain of device_id as a test
-- (`domain`, `valid`), base64, the member rule and the canonical text (`Codec`), and the HMAC of a
-- custody acknowledgement (`Signer`). Nothing is assumed of the digest except, where it is stated,
-- that two queued records of different bytes do not share one.
--
-- Not modelled: the start of the delivery worker, the publisher of the return path, the signatures
-- and the encryption of messages, the MQTT client, HTTP handlers, providers, reporting,
-- configuration and the command. They are input and output, glue, or code that calls libraries; the
-- components' interfaces to them are the arguments above.
pub mod Base
pub mod Refusal
pub mod Faults
pub mod Courier
pub mod Auth
pub mod Site
pub mod Session
pub mod Samples
