-- ===== src/Lib.antt =====
-- Verification of the group-operator, a Kubernetes controller for GroupJobs (MPI jobs).
--
-- The program. A GroupJob asks for a launcher and a number of workers. The controller takes a job's key
-- from a queue and calls `syncHandler`, which gives the job its defaults, validates it, creates or
-- updates the objects that the job needs, removes what it does not need, and writes the job's status.
-- It reads from the caches of informers and writes through clients of the API server.
--
-- The files, with the code that each models:
--   Api          the resource's types and constants (pkg/apis/kubeflow/v2beta1/types.go, constants.go)
--                and the parts of the Kubernetes objects that are read or written
--   Defaults     SetDefaults_GroupJob (pkg/apis/kubeflow/v2beta1/default.go); Defaults/Values says what
--                a job has behind it, without the code
--   Validation   ValidateGroupJob (pkg/apis/kubeflow/validation/validation.go); Validation/Spec says
--                what a valid job is, without the validator
--   Status       conditions (pkg/controller/mpi_job_controller_status.go)
--   PodGroup     gang scheduling (pkg/controller/podgroup.go): Resources is addResources, Order is
--                calPGMinResource, Control is newPodGroup of both schedulers
--   Names        names, labels, small tests (pkg/controller/mpi_job_controller.go)
--   Build        the objects that are created: newConfigMap, newJobService, newSSHAuthSecret,
--                newWorker, newLauncherJob (pkg/controller/mpi_job_controller.go)
--   Controller   syncHandler and what it calls (pkg/controller/mpi_job_controller.go): Resources, PodGroups,
--                Workers, Update (updateGroupJobStatus), Ensure (what a job needs), Sync; Keeps and
--                Legit are proofs on a whole sync: its calls are legitimate, and it does not panic
--   Events       the event handlers and their registration (handleObject, handleObjectUpdate, addGroupJob,
--                ownerReferenceAndGVK, NewGroupJobControllerWithClock of
--                pkg/controller/mpi_job_controller.go)
--   Queue        processNextWorkItem and runWorker (pkg/controller/mpi_job_controller.go); Laws has the
--                documented behaviour of the queue and the steps of handlers and workers as a relation,
--                Pending and Worker are proofs on them, React joins the handlers to the queue
--   Startup      createClientSets and checkCRDExists (cmd/group-operator/app/server.go)
--   Process      Run of cmd/group-operator/app/server.go with its options
--                (cmd/group-operator/app/options/options.go); Construct is
--                NewGroupJobControllerWithClock of pkg/controller/mpi_job_controller.go with NewVolcanoCtrl
--                and NewSchedulerPluginsCtrl of pkg/controller/podgroup.go
--   Informers    the factory of the informers of GroupJobs
--                (pkg/client/informers/externalversions/factory.go, generic.go, kubeflow/v2beta1/mpijob.go)
--   Memory       deep copies (pkg/apis/kubeflow/v2beta1/zz_generated.deepcopy.go)
--   Machinery    what is called of k8s.io/apimachinery, as parameters, with their documented laws
--   Outcome      results of Go functions: a value, an error, a panic
--   Prelude      shared names, integers with the wrap-around of int32, maps, decimal numbers
--   Examples     a small job and the theorems at it
--
-- How state is modelled. `Controller.World.State` is what a sync works on: its copy of the job, the
-- caches, and the list of the calls made so far, newest first. An operation of type `Sync A` takes a
-- state to an outcome and a state. The API server, the clock and the key generator are functions of
-- the calls so far, so that they may answer in any way. A nil pointer that is dereferenced and an index
-- out of range are the outcome `panic`. An object of a cache that the code changes in place
-- (`launcher.Spec.Suspend`, `oldPG.Spec`) is changed in the state's cache. How the job of a sync is
-- copied, with pointers and a memory of objects, is the part Memory. An informer has an address, so that two
-- that are made alike differ.
--
-- Loops. All loops are structural recursion on lists or on a number of rounds; printing a number is
-- recursion on accessibility. The worker's loop ends when the queue shuts down: it is recursion on a
-- number of rounds, and what is shown of it holds for any number.
--
-- Concurrency. A sync works on the caches that it begins with. Handlers and workers share the work
-- queue: their steps on it, in any order, are the relation `Queue.Laws.Reaches`.
--
-- Not modelled. Of the construction of the controller, the listers of other types and the recorder of
-- events; of the process, the parsing of flags, signals, the health check, the metrics and logs. The REST
-- clients and their fakes, apply configurations and OpenAPI definitions (pkg/client/clientset,
-- pkg/client/applyconfiguration, zz_generated.openapi.go) are generated data and calls of client-go, and so
-- are the lists and watches of an informer. A sync takes a map's entry that is a nil pointer as missing; a
-- map is a list in the order of one iteration, where Go leaves it open. Quantities are texts with arithmetic
-- as a parameter.
pub mod Prelude
pub mod Api
pub mod Machinery
pub mod Outcome
pub mod Status
pub mod Defaults
pub mod Validation
pub mod PodGroup
pub mod Names
pub mod Build
pub mod Memory
pub mod Informers
pub mod Controller
pub mod Events
pub mod Queue
pub mod Startup
pub mod Process
pub mod Examples
