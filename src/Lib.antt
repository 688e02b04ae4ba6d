-- ===== src/Lib.antt =====
-- Ron, a personal assistant that runs on a laptop: its core logic and why it is right.
--
-- The assistant (ron/assistant.py) gives every prompt to the memory, the conversation or the agent:
-- the dialogue of the memory (ron/memory) answers what is for it, and the router (ron/routing.py)
-- decides about the rest. The conversation (ron/chat.py) asks a chat model; the hybrid client
-- (ron/ai/hybrid_client.py) asks the cloud and, if it is out, a local model, and the scheduler
-- (ron/ai/scheduler.py) lets one model request run at a time. The agent (ron/agent) turns a prompt
-- into plans of approved tools: the service asks for a confirmation where one is needed, the
-- registry validates and runs one tool, and the task manager runs several steps in the background
-- and journals them. Memories are files of the storage manager (ron/storage/manager.py), which keeps
-- them on an external drive that may be away, and rows of a catalog. Reminders (ron/reminders.py)
-- fire from a table of their own. Devices are found on the network (ron/network/service.py) and
-- exchange lines of JSON (ron/network/protocol.py). The microphone's samples go through a ring
-- buffer and a detector of speech (ron/voice).
--
--   Prelude            tests, lists, texts, results and dictionaries that the other files share
--   Core               ron/core.py: the face expressions and the coordinator
--   Chat.History       ron/chat.py: `ConversationTurn` and `ConversationHistory`
--   Chat.Turn          ron/chat.py: `ChatService.respond`
--   Agent.Models       ron/agent/models.py
--   Agent.Registry     ron/agent/registry.py: `ToolRegistry`
--   Agent.Tasks        ron/agent/task_manager.py and ron/agent/journal.py; the worker thread is
--                      Agent.Tasks.Worker, and all threads together Agent.Tasks.Schedule
--   Agent.Service      ron/agent/service.py: `AgentService`; its dialogue is Agent.Service.Dialogue
--   Agent.Planner      ron/agent/planner.py: `AgentPlanner`
--   Ai.Scheduler       ron/ai/scheduler.py: `InferenceScheduler`
--   Storage            ron/storage/manager.py: `StorageManager`; Storage.Sync has reading,
--                      deleting and the recovery
--   Reminders          ron/reminders.py: `ReminderManager`
--   Memory             ron/memory/models.py and ron/memory/catalog.py: the records and their table
--   Memory.Service     ron/memory/service.py: `MemoryService`, over the storage manager
--   Memory.Dialogue    ron/memory/intelligence.py: `MemoryIntelligence`
--   Routing            ron/routing.py: `PromptRouter`; its tables are Routing.Rules
--   Assistant          ron/assistant.py: `RonAssistant`, over the models of the parts it calls
--   Ai.Hybrid          ron/ai/hybrid_client.py: `HybridAIClient`
--   Network.Protocol   ron/network/protocol.py: `encode_message` and `JsonLineDecoder`
--   Network.Datagrams  ron/network/protocol.py: the discovery datagrams and the pairing tokens
--   Network.Devices    ron/network/devices.py: `DeviceRegistry`
--   Network.Service    ron/network/service.py: `NetworkService`; its worker and all threads together
--                      are Network.Service.Worker
--   Voice.Audio        ron/voice/audio.py: `SampleRingBuffer`
--   Voice.Vad          ron/voice/vad.py: `SileroEndpointDetector`
--
-- A method that changes its object becomes a function from state to state with the method's name; a
-- `ValueError` and its kin are an `err`. The service holds the task manager and the registry of this
-- development, composed as in the source. A `dict` and a table with a key are association lists in
-- insertion order. Time is a number of clock ticks, since the source's floats are only added and
-- compared. The numbers are unbounded, as Python's are. The threads of the task manager, of the
-- scheduler, of the reminders and of the network service are sequences of steps, cut where a lock is
-- released, so any interleaving is such a sequence; a check of the external drive with its recovery,
-- a call of the network service up to the publication of its events, the UPDATE of the reminders'
-- worker with the calls of the listeners, and a turn of the assistant are taken as one step, and the
-- join of a thread as successful. The calls of the storage manager come one after another, and its
-- files in the fallback queue can be removed and read back; only the theorem of Storage.Calls lets
-- another thread come into a save, and the laptop's disk fail after a table has changed. The while
-- loops become structural recursion on the list that they shorten, and a thread's endless loop a step
-- function, so no fuel is needed; but the two loops of the speech detector have a number of tests as
-- fuel, and the theorem on them says which numbers are enough.
--
-- Given from outside, as arguments: the handlers of the tools, what a model client streams, the
-- notes of the memory provider, JSON and the size of its texts, the digest of a file, the planner's
-- answer, what a regular expression finds in a prompt, how the database compares a summary with a
-- text, what the policy of the memory makes of a statement, the speech detector of sherpa-onnx, what
-- a discovery finds on the network, and how the two disks take each write.
--
-- Not modelled: settings from the environment, logging, SQL text, disk errors of the journal and of
-- the tables, exceptions of listeners, and the storage identity files. Of the memory, the policy,
-- the core store and the visual memories; of the network, the sockets; of the voice, the
-- microphone, the resamplers, the models and the speech service. The tools, the other model clients,
-- the display code and the Spotify client are not part of this development.
pub mod Prelude
pub mod Core
pub mod Chat
pub mod Agent
pub mod Ai
pub mod Storage
pub mod Reminders
pub mod Network
pub mod Memory
pub mod Voice
pub mod Routing
pub mod Assistant
